-- ===== src/Game/Lines/Rows.antt =====
-- The loops of `Is_Increase_Score` over one row: adding it up, clearing it, copying it down.
use russia_tetris.Base.{
  ℕ, zero, suc, ◌+◌, ◌*◌, ◌≤◌, ◌<◌, ◌≡◌, ◌≢◌, refl, ap, ◌∙◌, ℤ, pos, List, Bool, true, false, ◌==◌,
  if◌then◌else◌, Option, none, some, arith, fun_ext,
}
use russia_tetris.World.{World, Play, set_play}
use russia_tetris.Output.{color_white, square, blank}
use russia_tetris.Effect.{◌>>=◌, ◌>>◌, Ensures, returns, Ensures-mono}
use russia_tetris.Effect.Does.{
  Does, Doing, ran, Drawn-Does, Does-from, Does-play, Does-weaken, >>=-Doing, for_range-Doing,
}
use russia_tetris.Game.Board.{update}
use russia_tetris.Game.Board.Access.{get_data_in, get_color_in, set_data_in, set_color_in}
use russia_tetris.Game.Draw.{text}
use russia_tetris.Game.Draw.Drawn.{text-Draws}
use russia_tetris.Game.Lines.{data_at, color_at, sum_cols, clear_row, copy_cell, copy_cols}
use russia_tetris.Game.Lines.Plain.{cols_total, row_total, blank_cols, copied, blanked}

-- The loop that adds up a row.
sum_cols-eq :
    (n j i sum : ℕ) (w : World)
    → i < 24
    → j + n ≤ 30
    → sum_cols n j i sum w ≡ some (sum + cols_total n j w.cells i, w)
unfolding sum_cols cols_total
sum_cols-eq zero j i sum w hi hj = ap (λ (k : ℕ). some (k, w)) (omega arith)
sum_cols-eq (suc n) j i sum w hi hj =
    rw (get_data_in i j hi (omega arith) w.play, ◌>>=◌, data_at)
      (sum_cols-eq n (j + 1) i (sum + w.cells i j) w hi (omega arith)
        ∙ ap (λ (k : ℕ). some (k, w)) (omega arith))

pub row_sum : (i : ℕ) (w : World) → i < 24 → sum_cols 18 1 i 0 w ≡ some (row_total w.cells i, w)
unfolding row_total
row_sum i w h = sum_cols-eq 18 1 i 0 w h (omega arith) ∙ ap (λ (k : ℕ). some (k, w)) (omega arith)

-- `text` after a step on the play to `q`.
text_after :
    (w : World) (p q : Play) (row col : ℤ) (color : ℕ) (s : List ℕ)
    → p ≡ q
    → Ensures (Does ran (λ _ r. r ≡ q) w) (text row col color s (set_play w p))
text_after w p q row col color s e =
    Ensures-mono (λ b w' d. Does-weaken (λ r h. h ∙ e) (Does-from (Drawn-Does d)))
      (text-Draws row col color s (set_play w p))

blank_cols-step :
    (c : ℕ → ℕ → ℕ) (i j : ℕ) → 0 < j → update (blank_cols c i j) i j 0 ≡ blank_cols c i (j + 1)
unfolding blank_cols update
blank_cols-step c i j h = fun_ext λ a. fun_ext λ b. ground arith

blank_cols-start : (c : ℕ → ℕ → ℕ) (i : ℕ) → c ≡ blank_cols c i 1
unfolding blank_cols
blank_cols-start c i = fun_ext λ a. fun_ext λ b. ground arith

pub clear_row-Doing :
    (i : ℕ) (w : World) → i < 24 → Doing ran (λ _ p. p ≡ blanked i w.play) (clear_row i) w
unfolding clear_row blanked
clear_row-Doing i w hi =
    for_range-Doing (λ j. record w.play { cells = blank_cols w.cells i j }) _ 1 19
      (λ j v lo hj at.
        let e : record v.play { cells = update v.cells i j 0 }
            ≡ record w.play { cells = blank_cols w.cells i (j + 1) } =
          ap (λ (p : Play). record p { cells = update p.cells i j 0 }) at
          ∙ ap (λ c. record w.play { cells = c }) (blank_cols-step w.cells i j lo) in
        rw (set_data_in i j hi (omega arith) 0 v, ◌>>◌, ◌>>=◌)
          (text_after v _ _ (pos (i + 1)) (pos (2 * j + 1)) color_white blank e))
      18 1 w (omega arith) (omega arith)
      (ap (λ c. record w.play { cells = c }) (blank_cols-start w.cells i))

copied-step {ℓ} :
    {A : Type ℓ} (c : ℕ → ℕ → A) (m1 m j : ℕ)
    → m1 ≢ m
    → 0 < j
    → update (copied c m1 m j) m j (copied c m1 m j m1 j) ≡ copied c m1 m (j + 1)
unfolding copied update
copied-step c m1 m j ne h = fun_ext λ a. fun_ext λ b. ground arith

pub copied-start {ℓ} : {A : Type ℓ} (c : ℕ → ℕ → A) (m1 m : ℕ) → c ≡ copied c m1 m 1
unfolding copied
copied-start c m1 m = fun_ext λ a. fun_ext λ b. ground arith

-- One cell copied.
abbrev cell_copied : ℕ → ℕ → ℕ → Play → Play
cell_copied m1 m n p = record p {
  cells = update p.cells m n (p.cells m1 n);
  colors = update p.colors m n (p.colors m1 n);
}

text_either :
    (b : Bool) (w : World) (p : Play) (row col : ℤ) (color : ℕ)
    → Ensures
        (Does ran (λ _ r. r ≡ p) w)
        ((if b then text row col color square else text row col color_white blank) (set_play w p))
text_either true w p row col color = text_after w p p row col color square refl
text_either false w p row col color = text_after w p p row col color_white blank refl

copy_cell-Doing :
    (m1 m n : ℕ) (w : World)
    → m1 < 24
    → m < 24
    → n < 30
    → Doing ran (λ _ p. p ≡ cell_copied m1 m n w.play) (copy_cell m1 m n) w
unfolding copy_cell
copy_cell-Doing m1 m n w h1 h hn =
    let p1 = record w.play { cells = update w.cells m n (w.cells m1 n) } in
    let p2 = cell_copied m1 m n w.play in
    rw (get_data_in m1 n h1 hn w.play, ◌>>=◌, data_at)
      (rw (set_data_in m n h hn (w.cells m1 n) w, ◌>>◌, ◌>>=◌)
        (rw (get_color_in m1 n h1 hn p1, ◌>>=◌, color_at)
          (rw (set_color_in m n h hn (w.colors m1 n) (set_play w p1), ◌>>◌, ◌>>=◌)
            (rw (get_data_in m n h hn p2, ◌>>=◌, data_at)
              (rw (get_color_in m n h hn p2, ◌>>=◌, color_at)
                (text_either (p2.cells m n == 1) w p2 (pos (m + 1)) (pos (2 * n + 1)) _))))))

-- Whether a call that returns -1 by `none` ran to its end.
unfoldable pub is_some : {A : Type 0} → Option A → Bool
is_some none = false
is_some (some a) = true

-- The columns before `n` are copied already.
abbrev pub part_copied : ℕ → ℕ → ℕ → Play → Play
part_copied m1 m n p = record p { cells = copied p.cells m1 m n; colors = copied p.colors m1 m n }

part_copied-step :
    (m1 m n : ℕ) (p : Play)
    → m1 ≢ m
    → 0 < n
    → cell_copied m1 m n (part_copied m1 m n p) ≡ part_copied m1 m (n + 1) p
part_copied-step m1 m n p ne h i = record p {
  cells = copied-step p.cells m1 m n ne h i;
  colors = copied-step p.colors m1 m n ne h i;
}

row_above : {A : Type 0} (c : ℕ → ℕ → A) (m1 m n : ℕ) → m1 ≢ m → copied c m1 m n m1 n ≡ c m1 n
unfolding copied
row_above c m1 m n ne = ground arith

pub copy_cols-Doing :
    (p : Play) (m1 m : ℕ)
    → m1 ≢ m
    → m1 < 24
    → m < 24
    → (k n sum : ℕ) (w : World) → n + k ≡ 19
    → 0 < n
    → w.play ≡ part_copied m1 m n p
    → Doing is_some
        (λ r q. (q ≡ part_copied m1 m 19 p) × (r ≡ some (sum + cols_total k n p.cells m1)))
        (copy_cols k n m1 m sum)
        w
unfolding copy_cols cols_total is_some
copy_cols-Doing p m1 m ne h1 h zero n sum w e pos_n at =
    let e' : n ≡ 19 = omega arith in
    returns (Does-play w w.play _ refl (rw at (rw e' refl), ap (λ (t : ℕ). some t) (omega arith)))
copy_cols-Doing p m1 m ne h1 h (suc k) n sum w e pos_n at =
    rw (get_data_in m1 n h1 (omega arith) w.play, ◌>>=◌, data_at)
      (>>=-Doing (copy_cell m1 m n) _ w (copy_cell-Doing m1 m n w h1 h (omega arith))
        (λ b w' t done.
          let at' : w'.play ≡ part_copied m1 m (n + 1) p =
            done ∙ ap (cell_copied m1 m n) at ∙ part_copied-step m1 m n p ne pos_n in
          let same : w.cells m1 n ≡ p.cells m1 n =
            ap (λ (q : Play). q.cells m1 n) at ∙ row_above p.cells m1 m n ne in
          rw t (
            Ensures-mono
              (λ r v d.
                Does-weaken (λ q x. (x.0, x.1 ∙ ap (λ (u : ℕ). some u) (omega (arith, same)))) d)
              (copy_cols-Doing p m1 m ne h1 h k (n + 1) (sum + w.cells m1 n) w' (omega arith)
                (omega arith) at')))
        (λ b w' f. (none, rw f, refl)))
