-- ===== src/Game/Lines/Refines.antt =====
-- `Is_Increase_Score` computes the plain pass, and indexes both arrays in range.
use russia_tetris.Base.{
  ℕ, zero, suc, ◌<◌, ◌≡◌, refl, ap, ◌∙◌, inl, inr, Bool, true, false, Bool-cases, ltb, ◌==◌,
  if◌then◌else◌, Option, none, some, arith,
}
use russia_tetris.World.{World, Play, set_play}
use russia_tetris.Effect.{M, ◌>>=◌, return, Ensures, returns, Ensures-mono}
use russia_tetris.Effect.Does.{Does, Doing, Does-from, Does-play, Does-weaken, >>=-Doing}
use russia_tetris.Game.Lines.{
  Pass, failed, again, finished, clear_row, copy_cols, shift_rows, full_row, scan_row, scan_rows,
  is_increase_score,
}
use russia_tetris.Game.Lines.Rows.{
  row_sum, clear_row-Doing, copy_cols-Doing, is_some, part_copied, copied-start,
}
use russia_tetris.Game.Lines.Plain.{
  cols_total, row_total, blanked, copied_row, Outcome, shifted, go_on, counted, cleared, scanned,
}

-- Results of a pass that no output ended.
unfoldable pub passed : Pass → Bool
passed failed = false
passed again = true
passed finished = true

moved_down : Option Pass → Bool
unfolding passed
moved_down none = true
moved_down (some r) = passed r

some_misses : {A : Type 0} (r : Option A) → is_some r ≡ false → r ≡ none
unfolding is_some
some_misses none h = refl
some_misses (some a) h = cc

part_copied-start : (m1 m : ℕ) (p : Play) → p ≡ part_copied m1 m 1 p
part_copied-start m1 m p i = record p {
  cells = copied-start p.cells m1 m i;
  colors = copied-start p.colors m1 m i;
}

shift_rows-Doing :
    (m : ℕ) (w : World)
    → m < 24
    → Doing moved_down (λ r q. ◌≡◌ {A = Outcome} (r, q) (shifted m w.play)) (shift_rows m) w
unfolding shift_rows shifted moved_down cols_total row_total copied_row
shift_rows-Doing zero w h = returns (Does-play w w.play none refl refl)
shift_rows-Doing (suc zero) w h = returns (Does-play w w.play none refl refl)
shift_rows-Doing (suc (suc k)) w h =
    >>=-Doing (copy_cols 18 1 (suc k) (suc (suc k)) 0) _ w
      (copy_cols-Doing w.play (suc k) (suc (suc k)) (omega arith) (omega arith) h 18 1 0 w refl
        (omega arith) (part_copied-start (suc k) (suc (suc k)) w.play))
      (λ r w' t x.
        let total : r ≡ some (row_total w.cells (suc k)) =
          x.1 ∙ ap (λ (u : ℕ). some u) (omega arith) in
        elim (Bool-cases (row_total w.cells (suc k) == 0)) [
          | inl e ↦
              rw (total, e) (returns (Does-play w' w'.play _ refl (ap (λ q. (some again, q)) x.0)))
          | inr e ↦
              rw (total, e)
                (Ensures-mono (λ r' v d. Does-weaken (λ q y. y ∙ ap (λ u. shifted (suc k) u) x.0) d)
                  (shift_rows-Doing (suc k) w' (omega arith)))
        ])
      (λ r w' f. (some failed, rw (some_misses r f), refl))

module _ (next : M Pass) (plain : Play → Pass × Play)
    (go : (w : World)
      → Doing passed (λ r q. ◌≡◌ {A = Pass × Play} (r, q) (plain w.play)) next w) where
  full_row-Doing :
      (i : ℕ) (w : World)
      → i < 24
      → Doing passed
          (λ r q. ◌≡◌ {A = Pass × Play} (r, q) (cleared i plain w.play))
          (full_row i next)
          w
  unfolding full_row cleared passed moved_down
  full_row-Doing i w h =
      >>=-Doing (λ v. clear_row i (set_play v (counted v.play))) _ w
        (Ensures-mono (λ b v d. Does-from d) (clear_row-Doing i (set_play w (counted w.play)) h))
        (λ b w' t e. rw t (
          >>=-Doing (shift_rows i) _ w' (shift_rows-Doing i w' h)
            (λ r v s x. ended r v s (x ∙ ap (shifted i) e)) (λ r v f. stopped r v f)))
        (λ b w' f. (failed, rw f, refl))
    where
      finish : Option Pass → M Pass
      finish r = elim r [ none ↦ next | some result ↦ return result ]

      ended :
          (r : Option Pass) (v : World)
          → moved_down r ≡ true
          → ◌≡◌ {A = Outcome} (r, v.play) (shifted i (blanked i (counted w.play)))
          → Doing passed
              (λ r' q.
                ◌≡◌ {A = Pass × Play}
                  (r', q)
                  (go_on plain (shifted i (blanked i (counted w.play)))))
              (finish r)
              v
      ended none v s x =
          Ensures-mono (λ r' u d. Does-weaken (λ q y. y ∙ ap (go_on plain) x) d) (go v)
      ended (some r) v s x = returns (Does-play v v.play r s (ap (go_on plain) x))

      stopped :
          (r : Option Pass) (v : World)
          → moved_down r ≡ false
          → (b : Pass) × (finish r v ≡ some (b, v)) × (passed b ≡ false)
      stopped none v f = cc
      stopped (some r) v f = (r, refl, f)

  scan_row-Doing :
      (i : ℕ) (w : World)
      → i < 24
      → Doing passed
          (λ r q.
            ◌≡◌ {A = Pass × Play}
              (r, q)
              (if row_total w.cells i == 0
                then (finished, w.play)
                else if row_total w.cells i == 18
                then cleared i plain w.play
                else plain w.play))
          (scan_row i next)
          w
  unfolding scan_row passed
  scan_row-Doing i w h =
      rw (row_sum i w h, ◌>>=◌) (by_total (row_total w.cells i == 0) (row_total w.cells i == 18))
    where
      by_total :
          (none' full : Bool)
          → Ensures
              (Does passed
                (λ r q.
                  ◌≡◌ {A = Pass × Play}
                    (r, q)
                    (if none'
                      then (finished, w.play)
                      else if full
                      then cleared i plain w.play
                      else plain w.play))
                w)
              ((if none' then return finished else if full then full_row i next else next) w)
      by_total true full = returns (Does-play w w.play finished refl refl)
      by_total false true = full_row-Doing i w h
      by_total false false = go w

-- In a batch, or as long as no output fails, `Is_Increase_Score` returns what the plain pass
-- returns and leaves the play that it leaves; on the way it indexes no array out of its bounds,
-- whatever the socket does.
scan_rows-Doing :
    (i : ℕ) (w : World)
    → i < 23
    → Doing passed (λ r q. ◌≡◌ {A = Pass × Play} (r, q) (scanned i w.play)) (scan_rows i) w
unfolding scan_rows scanned passed
scan_rows-Doing zero w h = returns (Does-play w w.play finished refl refl)
scan_rows-Doing (suc i) w h = elim (Bool-cases (ltb 4 (suc i))) [
  | inr low ↦ rw low (returns (Does-play w w.play finished refl refl))
  | inl high ↦ rw high (
      scan_row-Doing (scan_rows i) (scanned i) (λ v. scan_rows-Doing i v (omega arith)) (suc i) w
        (omega arith))
]

pub is_increase_score-Doing :
    (w : World)
    → Doing passed (λ r q. ◌≡◌ {A = Pass × Play} (r, q) (scanned 22 w.play)) is_increase_score w
unfolding is_increase_score
is_increase_score-Doing w = scan_rows-Doing 22 w (omega arith)

-- In a batch a pass returns, stays inside of both arrays, and leaves the result and the play of the
-- pass without output and without array bounds, `scanned 22`.
pub is_increase_score-scanned :
    (w : World)
    → 0 < w.depth
    → Ensures (λ r w'. (r, w'.play) ≡ scanned 22 w.play) (is_increase_score w)
is_increase_score-scanned w h =
    Ensures-mono (λ r w' d. d.play (d.batched h).0) (is_increase_score-Doing w)
