-- ===== src/Game/Drop/Settle.antt =====
-- After the lines are cleared: the score, the walls, and either the next piece or the end of the game.
use russia_tetris.Base.{
  ℕ, zero, suc, ◌+◌, ◌%◌, ◌≤◌, ◌<◌, ◌≡◌, ◌≢◌, refl, subst, ap, ◌∙◌, ◌⊎◌, inl, inr, pos, List, [],
  ◌∷◌, ◌++◌, Bool, true, false, Bool-cases, Option, some, ◌==◌, ==_iff, if◌then◌else◌, arith,
  dec_lt,
}
use russia_tetris.Status.{over_confirming}
use russia_tetris.World.{
  World, Play, WriteTask, update_top_score_recent_score, set_play, set_status,
}
use russia_tetris.Output.{color_white}
use russia_tetris.Output.Effect.{Drawn, output-Drawn}
use russia_tetris.Effect.{M, ◌>>=◌, ◌⟫◌, return, modify, Ensures, returns, Ensures-mono, ⟫-Ensures}
use russia_tetris.Effect.Does.{Does, Doing, ran, Drawn-Does, Does-from, Does-weaken, ⟫-Doing}
use russia_tetris.Game.Board.Access.{get_data_in}
use russia_tetris.Game.Lines.{data_at}
use russia_tetris.Game.Draw.{
  text, gain, draw_score, draw_block, draw_space, draw_current, redraw_walls, update_current_score,
}
use russia_tetris.Game.Draw.Drawn.{
  Draws, text-Draws, ⟫-Draws, draw_block-Draws, draw_space-Draws, redraw_walls-Draws,
  draw_score-Draws,
}
use russia_tetris.Game.Drop.{
  any_in_row, is_over, show_over, game_over, start_again, show_cursor, save_score, saving,
  next_piece, coming, settle, after_lines,
}

-- A block in row 1, which is where `IsOver` looks.
pub record TopTaken (p : Play) : Type 0 where
  pub column : ℕ
  pub left : 0 < column
  pub right : column < 19
  pub taken : p.cells 1 column ≡ 1

any_in_row-eq :
    (n j : ℕ) (w : World)
    → j + n ≡ 19
    → 0 < j
    → (b : Bool) × (any_in_row n j w ≡ some (b, w))
      × (b ≡ true → TopTaken w.play)
      × (b ≡ false → (k : ℕ) → j ≤ k → k < 19 → w.cells 1 k ≢ 1)
unfolding any_in_row
any_in_row-eq zero j w e lo = (false, refl, (λ h. cc), λ _ k h1 h2. absurd (omega arith))
any_in_row-eq (suc n) j w e lo = elim (Bool-cases (w.cells 1 j == 1)) [
  | inl hit ↦ (
    true,
    rw (get_data_in 1 j (omega arith) (omega arith) w.play, ◌>>=◌, data_at) (rw hit),
    (λ _. record { column = j; left = lo; right = omega arith; taken = (==_iff _ 1).0 hit }),
    λ h. cc,
  )
  | inr miss ↦
      let rest = any_in_row-eq n (j + 1) w (omega arith) (omega arith) in
      (
        rest.0,
        rw (get_data_in 1 j (omega arith) (omega arith) w.play, ◌>>=◌, data_at) (rw miss rest.1),
        rest.2,
        λ h k h1 h2. elim (dec_lt j k) [
          | yes lt ↦ rest.3 h k (omega arith) h2
          | no ge ↦
              let same : k ≡ j = omega arith in
              λ one. cc ((==_iff (w.cells 1 j) 1).1 (rw same at one))
        ],
      )
]

-- What the end of a lock does to a play: the score, and the piece that comes next.
abbrev pub scored : Play → Play
scored p = record p { score = p.score + gain p.line }

abbrev pub with_next : ℕ → ℕ → Play → Play
with_next r r' p = record p {
  shape = p.next_shape;
  form = p.next_form;
  next_shape = r % 7;
  next_form = r' % 4;
  row = pos 1;
  col = pos 9;
}

-- The game goes on with the next piece, or is over: then the connection waits for an answer, and
-- one job to save the score is queued.
pub data Ending (r r' : ℕ) (w w' : World) : Type 0 where
  goes_on :
      ¬ TopTaken w.play
      → w'.play ≡ with_next r r' w.play
      → w'.status ≡ w.status
      → w'.write_queue ≡ w.write_queue
      → Ending r r' w w'
  ends :
      TopTaken w.play
      → w'.play ≡ w.play
      → w'.status ≡ over_confirming
      → w'.write_queue ≡ w.write_queue ++ update_top_score_recent_score ∷ []
      → Ending r r' w w'

-- In a batch the call runs to its end.
abbrev pub Ends : ℕ → ℕ → World → Bool → World → Type 0
Ends r r' w b w' = 0 < w.depth → (b ≡ true) × Ending r r' w w' × (w'.current_time ≡ w.current_time)

pub show_over-Draws : (w : World) → Draws show_over w
unfolding show_over
show_over-Draws w =
    ⟫-Draws (text (pos 12) (pos 12) color_white game_over) _ w
      (text-Draws (pos 12) (pos 12) color_white game_over w)
      λ v _.
        ⟫-Draws (text (pos 15) (pos 12) color_white start_again) _ v
          (text-Draws (pos 15) (pos 12) color_white start_again v)
          λ u _. returns (output-Drawn u show_cursor)

next_piece-Doing :
    (r r' : ℕ) (w : World)
    → w.next_shape < 7
    → w.next_form < 4
    → Doing ran (λ _ q. q ≡ with_next r r' w.play) (next_piece r r') w
unfolding next_piece
next_piece-Doing r r' w hs hf =
    let p1 = record w.play { shape = w.next_shape; form = w.next_form } in
    let w1 = set_play w p1 in
    Ensures-mono (λ b u d. Does-from d)
      (⟫-Doing (λ v. draw_space v.next_shape v.next_form (pos 3) (pos 23) v)
        (modify (coming r r')
          ⟫ (λ v. draw_block v.next_shape v.next_form (pos 3) (pos 23) v)
          ⟫ draw_current)
        w1 (drawn w1 (draw_space-Draws w.next_shape w.next_form hs hf (pos 3) (pos 23) w1))
        λ v at. shown v (
          ap
            (λ (t : Play). record t {
              next_shape = r % 7;
              next_form = r' % 4;
              row = pos 1;
              col = pos 9;
            })
            at))
  where
    drawn :
        {o : Option (Bool × World)} (v : World)
        → Ensures (Drawn v) o
        → Ensures (Does ran (λ _ q. q ≡ v.play) v) o
    drawn v d = Ensures-mono (λ b u e. Drawn-Does e) d

    shown :
        (v : World)
        → (coming r r' v).play ≡ with_next r r' w.play
        → Doing ran
            (λ _ q. q ≡ with_next r r' w.play)
            (modify (coming r r')
              ⟫ (λ u. draw_block u.next_shape u.next_form (pos 3) (pos 23) u)
              ⟫ draw_current)
            v
    shown v at =
        let v2 = coming r r' v in
        Ensures-mono (λ b u d. Does-from d)
          (⟫-Doing (λ u. draw_block u.next_shape u.next_form (pos 3) (pos 23) u) draw_current v2
            (drawn v2
              (draw_block-Draws (r % 7) (r' % 4) (omega arith) (omega arith) (pos 3) (pos 23) v2))
            λ u same.
              let here : u.play ≡ with_next r r' w.play = same ∙ at in
              Ensures-mono (λ b t d. Does-weaken (λ q e. e ∙ here) (Drawn-Does d))
                (draw_block-Draws u.shape u.form (rw (ap (λ (t : Play). t.shape) here) hs)
                  (rw (ap (λ (t : Play). t.form) here) hf) u.row u.col u))

is_over-eq :
    (w : World)
    → (b : Bool) × (is_over w ≡ some (b, if b then set_status w over_confirming else w))
      × (b ≡ true → TopTaken w.play)
      × (b ≡ false → ¬ TopTaken w.play)
unfolding is_over
is_over-eq w =
    let a = any_in_row-eq 18 1 w refl (omega arith) in
    (
      a.0,
      rw (a.1, ◌>>=◌) (answer a.0),
      a.2,
      λ e t. a.3 e t.column (omega (arith, t.left)) t.right t.taken,
    )
  where
    answer :
        (b : Bool)
        → (if b then modify (λ v. set_status v over_confirming) else return false) w
          ≡ some (b, if b then set_status w over_confirming else w)
    answer true = refl
    answer false = refl

settle-Ends :
    (r r' : ℕ) (w : World)
    → w.next_shape < 7
    → w.next_form < 4
    → Ensures (Ends r r' w) (settle r r' w)
unfolding settle save_score
settle-Ends r r' w hs hf =
    let over = is_over-eq w in
    elim (Bool-cases over.0) [
      | inl e ↦
          rw (over.1, ◌>>=◌)
            (rw e (
              Ensures-mono
                (λ b u d h.
                  let t = d.batched h in
                  (
                    t.0,
                    ends (over.2 e) d.kept.play (ap (λ (v : World). v.status) t.3) d.kept.saves,
                    d.kept.time,
                  ))
                (show_over-Draws (saving (set_status w over_confirming)))))
      | inr e ↦
          rw (over.1, ◌>>=◌)
            (rw e (
              Ensures-mono
                (λ b u d h.
                  let t = d.batched h in (t.0, goes_on (over.3 e) (d.play t.0) t.1 d.saves, d.time))
                (next_piece-Doing r r' w hs hf)))
    ]

pub Ending-moved :
    (r r' : ℕ) (w v u : World)
    → v.play ≡ w.play
    → v.status ≡ w.status
    → v.write_queue ≡ w.write_queue
    → Ending r r' v u
    → Ending r r' w u
Ending-moved r r' w v u p s q (goes_on n a b c) =
    goes_on (subst (λ (x : Play). ¬ TopTaken x) p n) (a ∙ ap (with_next r r') p) (b ∙ s) (c ∙ q)
Ending-moved r r' w v u p s q (ends t a b c) =
    ends (subst TopTaken p t) (a ∙ p) b
      (c ∙ ap (λ (x : List WriteTask). x ++ update_top_score_recent_score ∷ []) q)

draw-Ends :
    (r r' : ℕ) (m k : M Bool) (w : World)
    → Draws m w
    → ((v : World) → v.play ≡ w.play → Ensures (Ends r r' v) (k v))
    → Ensures (Ends r r' w) ((m ⟫ k) w)
draw-Ends r r' m k w d next =
    ⟫-Ensures m k w d
      (λ v e.
        Ensures-mono
          (λ b u f h.
            let t = f (omega (arith, e.kept.depth)) in
            (
              t.0,
              Ending-moved r r' w v u e.kept.play (ap (λ (x : World). x.status) (e.batched h).3)
                  e.kept.saves t.1,
              t.2 ∙ e.kept.time,
            ))
          (next v e.kept.play))
      (λ v e h. cc (e.batched h).0)

-- The score is counted before the end of the game is looked for.
pub after_lines-Ends :
    (r r' : ℕ) (w : World)
    → w.next_shape < 7
    → w.next_form < 4
    → Ensures (Ends r r' (set_play w (scored w.play))) (after_lines r r' w)
unfolding after_lines update_current_score
after_lines-Ends r r' w hs hf =
    let w1 = set_play w (scored w.play) in
    draw-Ends r r' draw_score (redraw_walls ⟫ settle r r') w1 (draw_score-Draws w1) λ v e.
      draw-Ends r r' redraw_walls (settle r r') v (redraw_walls-Draws v) λ u e'.
        settle-Ends r r' u (rw (ap (λ (x : Play). x.next_shape) (e' ∙ e)) hs)
          (rw (ap (λ (x : Play). x.next_form) (e' ∙ e)) hf)

-- `IsOver` stays inside of the array. It answers whether row 1 holds a block, and changes the state
-- of the connection when it does and nothing at all when it does not.
pub is_over-TopTaken :
    (w : World)
    → Ensures
        (λ b w'.
          (b ≡ true) × TopTaken w.play × (w' ≡ set_status w over_confirming)
          ⊎ (b ≡ false) × (¬ TopTaken w.play) × (w' ≡ w))
        (is_over w)
is_over-TopTaken w =
    let a = is_over-eq w in
    elim (Bool-cases a.0) [
      | inl e ↦ rw a.1 (rw e (returns (inl (refl, a.2 e, refl))))
      | inr e ↦ rw a.1 (rw e (returns (inr (refl, a.3 e, refl))))
    ]

-- In a batch, with a next piece of the table, what follows the loop over the lines runs to its end.
-- It counts the score of the lines, and then either row 1 is empty and the next piece comes, or it holds
-- a block, the connection waits for an answer, and one job to save the score is queued.
pub after_lines-Ending :
    (r r' : ℕ) (w : World)
    → w.next_shape < 7
    → w.next_form < 4
    → 0 < w.depth
    → Ensures
        (λ b w'. (b ≡ true) × Ending r r' (set_play w (scored w.play)) w')
        (after_lines r r' w)
after_lines-Ending r r' w hs hf h =
    Ensures-mono (λ b w' e. let t = e h in (t.0, t.1)) (after_lines-Ends r r' w hs hf)
