-- ===== src/Game/Start/Framing.antt =====
-- The board that a game starts with.
use russia_tetris.Base.{
  ℕ, ◌+◌, ◌*◌, ◌≤◌, ◌<◌, ◌≡◌, refl, sym, ◌∙◌, ◌⊎◌, inl, inr, pos, Option, Bool, true, Bool-cases,
  if◌then◌else◌, arith, dec_lt, ℕ_discrete,
}
use russia_tetris.World.{World, Play, set_play}
use russia_tetris.Output.{color_white, square}
use russia_tetris.Output.Effect.{Drawn}
use russia_tetris.Effect.{◌>>=◌, ◌>>◌, Ensures, returns, Ensures-mono, for_range, ◌⟫◌}
use russia_tetris.Effect.Does.{
  Does, Doing, ran, Drawn-Does, Does-from, Does-play, Does-weaken, ⟫-Doing, for_range-Keeping,
}
use russia_tetris.Game.Board.{update}
use russia_tetris.Game.Board.Access.{set_data_in, update_cases, update_self}
use russia_tetris.Game.Board.Cells.{Framed}
use russia_tetris.Game.Draw.{text, score_label}
use russia_tetris.Game.Draw.Drawn.{text-Draws}
use russia_tetris.Game.Start.{wall, init_cell, panel_cell, next_label, init_interface}

-- What the loops write into a cell.
abbrev pub wanted : ℕ → ℕ → ℕ
wanted i j = if wall i j then 1 else 0

-- The cells before (i0, j0) are written.
abbrev Written : ℕ → ℕ → Play → Type 0
Written i0 j0 p =
    (i j : ℕ) → i < 24 → j < 30 → (i < i0) ⊎ (i ≡ i0) × (j < j0) → p.cells i j ≡ wanted i j

-- The frame is in place and the field is empty.
pub record Started (p : Play) : Type 0 where
  pub frame : Framed p
  pub empty : (i j : ℕ) → i < 23 → 0 < j → j < 19 → p.cells i j ≡ 0

Written-Started : (p : Play) → Written 24 0 p → Started p
Written-Started p h = record {
  frame = record {
    left_wall = λ i hi. h i 0 hi (omega arith) (inl hi) ∙ ground arith;
    right_wall = λ i hi. h i 19 hi (omega arith) (inl hi) ∙ ground arith;
    panel_side = λ i hi. h i 29 hi (omega arith) (inl hi) ∙ ground arith;
    floor = λ j hj. h 23 j (omega arith) hj (inl (omega arith)) ∙ ground arith;
    field = λ i j hi lo hj. ground (arith, h i j (omega arith) (omega arith) (inl (omega arith)));
  };
  empty = λ i j hi lo hj. ground (arith, h i j (omega arith) (omega arith) (inl (omega arith)));
}

set_cell : Play → ℕ → ℕ → ℕ → Play
set_cell p i j v = record p { cells = update p.cells i j v }

Written-cell :
    (i j v : ℕ) (p : Play) → v ≡ wanted i j → Written i j p → Written i (j + 1) (set_cell p i j v)
unfolding set_cell
Written-cell i j v p e h a b ha hb before = elim (update_cases p.cells i j v a b) [
  | inl (ea, eb, at) ↦ at ∙ e ∙ sym (λ k. wanted (ea k) (eb k))
  | inr same ↦ elim (dec_lt a i) [
    | yes lt ↦ same ∙ h a b ha hb (inl lt)
    | no ge ↦ elim (ℕ_discrete b j) [
      | no ne ↦ same ∙ h a b ha hb (inr (omega (arith, before), omega (arith, before, ne)))
      | yes eb ↦
          let ea : a ≡ i = omega (arith, before) in rw (ea, eb) (update_self p.cells i j v ∙ e)
    ]
  ]
]

Written-row : (i : ℕ) (p : Play) → Written i 30 p → Written (i + 1) 0 p
Written-row i p h a b ha hb before = h a b ha hb (omega (arith, before))

init_cell-Written :
    (i j : ℕ) (w : World)
    → i < 24
    → j < 30
    → Written i j w.play
    → Doing ran (λ _ p. Written i (j + 1) p) (init_cell i j) w
unfolding init_cell set_cell
init_cell-Written i j w hi hj h = elim (Bool-cases (wall i j)) [
  | inl e ↦
      let w' = set_play w (set_cell w.play i j 1) in
      let next = Written-cell i j 1 w.play (rw e refl) h in
      rw (e, init_cell)
        (rw (set_data_in i j hi hj 1 w, ◌>>◌, ◌>>=◌)
          (Ensures-mono (λ b u d. Does-from (Does-weaken (λ q same. rw same next) (Drawn-Does d)))
            (text-Draws (pos (i + 1)) (pos (2 * j + 1)) color_white square w')))
  | inr e ↦
      let next = Written-cell i j 0 w.play (rw e refl) h in
      rw (e, init_cell)
        (rw (set_data_in i j hi hj 0 w, ◌>>◌, ◌>>=◌)
          (returns (Does-play w (set_cell w.play i j 0) true refl next)))
]

panel_cell-Started :
    (j : ℕ) (w : World)
    → 20 ≤ j
    → j < 30
    → Started w.play
    → Doing ran (λ _ p. Started p) (panel_cell j) w
unfolding panel_cell set_cell update
panel_cell-Started j w lo hj s =
    let w' = set_play w (set_cell w.play 11 j 1) in
    let next : Started w'.play = record {
      frame = record {
        left_wall = λ a ha. ground (arith, s.frame.left_wall a ha);
        right_wall = λ a ha. ground (arith, s.frame.right_wall a ha);
        panel_side = λ a ha. ground (arith, s.frame.panel_side a ha);
        floor = λ b hb. ground (arith, s.frame.floor b hb);
        field = λ a b ha l hb. ground (arith, s.frame.field a b ha l hb);
      };
      empty = λ a b ha l hb. ground (arith, s.empty a b ha l hb);
    } in
    rw (set_data_in 11 j (omega arith) hj 1 w, ◌>>◌, ◌>>=◌)
      (Ensures-mono (λ b u d. Does-from (Does-weaken (λ q same. rw same next) (Drawn-Does d)))
        (text-Draws (pos 12) (pos (2 * j + 1)) color_white square w'))

pub Drawn-Doing :
    {R : Play → Type 0} {o : Option (Bool × World)} (w : World)
    → Ensures (Drawn w) o
    → R w.play
    → Ensures (Does ran (λ _ q. R q) w) o
Drawn-Doing w d r = Ensures-mono (λ b u e. Does-weaken (λ q same. rw same r) (Drawn-Does e)) d

pub init_interface-Started : (w : World) → Doing ran (λ _ p. Started p) init_interface w
unfolding init_interface
init_interface-Started w =
    ⟫-Doing (for_range 24 0 λ i. for_range 30 0 λ j. init_cell i j)
      (for_range 10 20 panel_cell
        ⟫ text (pos 2) (pos 42) color_white next_label
        ⟫ text (pos 14) (pos 42) color_white score_label)
      w
      (for_range-Keeping (λ i p. Written i 0 p) (λ i. for_range 30 0 λ j. init_cell i j) 24
        (λ i v hi h.
          Ensures-mono (λ b u d. Does-weaken (λ q x. Written-row i q x) d)
            (for_range-Keeping (λ j p. Written i j p) (init_cell i) 30
              (λ j u hj k. init_cell-Written i j u hi hj k) 30 0 v refl h))
        24 0 w refl (λ i j hi hj before. absurd (omega (arith, before))))
      λ v h.
        ⟫-Doing (for_range 10 20 panel_cell)
          (text (pos 2) (pos 42) color_white next_label
            ⟫ text (pos 14) (pos 42) color_white score_label)
          v
          (for_range-Keeping (λ j p. (20 ≤ j) × Started p) panel_cell 30
            (λ j u hj k.
              Ensures-mono (λ b t d. Does-weaken (λ q x. (omega (arith, k.0), x)) d)
                (panel_cell-Started j u k.0 hj k.1))
            10 20 v refl (omega arith, Written-Started v.play h))
          λ u s.
            ⟫-Doing (text (pos 2) (pos 42) color_white next_label)
              (text (pos 14) (pos 42) color_white score_label) u
              (Drawn-Doing u (text-Draws (pos 2) (pos 42) color_white next_label u) s.1)
              λ t s'. Drawn-Doing t (text-Draws (pos 14) (pos 42) color_white score_label t) s'
