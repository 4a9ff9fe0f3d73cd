-- ===== src/Game/Lines/Plain.antt =====
-- The pass of `Is_Increase_Score` on the play alone: what it does when nothing interrupts it.
use russia_tetris.Base.{ℕ, zero, suc, ◌+◌, Option, none, some, ◌&&◌, ltb, ◌==◌, if◌then◌else◌}
use russia_tetris.World.{Play}
use russia_tetris.Game.Lines.{Pass, again, finished}

-- The sum of columns j to j + n - 1 of row i, and the number of blocks in row i of the field.
unfoldable pub cols_total : ℕ → ℕ → (ℕ → ℕ → ℕ) → ℕ → ℕ
cols_total zero j c i = 0
cols_total (suc n) j c i = c i j + cols_total n (j + 1) c i

unfoldable pub row_total : (ℕ → ℕ → ℕ) → ℕ → ℕ
row_total c i = cols_total 18 1 c i

-- Row i of the field cleared up to column j, and row m1 copied to row m up to column j.
unfoldable pub blank_cols : (ℕ → ℕ → ℕ) → ℕ → ℕ → ℕ → ℕ → ℕ
blank_cols c i j a b = if a == i && (ltb 0 b && ltb b j) then 0 else c a b

unfoldable pub copied {ℓ} : {A : Type ℓ} → (ℕ → ℕ → A) → ℕ → ℕ → ℕ → ℕ → ℕ → A
copied c m1 m j a b = if a == m && (ltb 0 b && ltb b j) then c m1 b else c a b

unfoldable pub blanked : ℕ → Play → Play
blanked i p = record p { cells = blank_cols p.cells i 19 }

unfoldable pub copied_row : ℕ → ℕ → Play → Play
copied_row m1 m p = record p { cells = copied p.cells m1 m 19; colors = copied p.colors m1 m 19 }

abbrev pub Outcome : Type 0
Outcome = Option Pass × Play

unfoldable pub shifted : ℕ → Play → Outcome
shifted zero p = (none, p)
shifted (suc zero) p = (none, p)
shifted (suc (suc k)) p =
    let rest = shifted (suc k) (copied_row (suc k) (suc (suc k)) p) in
    if row_total p.cells (suc k) == 0
    then (some again, copied_row (suc k) (suc (suc k)) p)
    else rest

abbrev pub counted : Play → Play
counted p = record p { line = p.line + 1 }

-- `next` is the rest of the pass, for when the rows were moved to the last.
unfoldable pub go_on : (Play → Pass × Play) → Outcome → Pass × Play
go_on next (none, q) = next q
go_on next (some r, q) = (r, q)

unfoldable pub cleared : ℕ → (Play → Pass × Play) → Play → Pass × Play
unfolding go_on
cleared i next p = go_on next (shifted i (blanked i (counted p)))

unfoldable pub scanned : ℕ → Play → Pass × Play
scanned zero p = (finished, p)
scanned (suc i) p =
    let row = row_total p.cells (suc i) in
    let next = scanned i p in
    let full = cleared (suc i) (scanned i) p in
    if ltb 4 (suc i)
    then (if row == 0 then (finished, p) else if row == 18 then full else next)
    else (finished, p)
