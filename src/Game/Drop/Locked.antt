-- ===== src/Game/Drop/Locked.antt =====
-- The loops of `Game::processBlockDown` that make the piece part of the board.
use russia_tetris.Base.{
  ℕ, ◌+◌, ◌<◌, ◌≡◌, ◌≢◌, refl, sym, ap, subst₂, ◌∙◌, ◌⊎◌, inl, inr, ℤ, pos, pos_part, true, Option,
  some, arith, dec_lt, ℕ_discrete,
}
use russia_tetris.World.{World, Play, set_play}
use russia_tetris.Effect.{◌>>=◌, ◌>>◌, Ensures, returns, Ensures-mono, for_range}
use russia_tetris.Effect.Does.{Does-play, Does-weaken, Sure, for_range-Sure}
use russia_tetris.Game.Blocks.{space}
use russia_tetris.Game.Blocks.Forms.{space_cases}
use russia_tetris.Game.Board.{cell_row, update}
use russia_tetris.Game.Board.Access.{update_cases, update_self, set_data-InField, set_color-InField}
use russia_tetris.Game.Board.Legal.{InField}
use russia_tetris.Game.Board.Cells.{PieceInField}
use russia_tetris.Game.Drop.{write_square, lock_square, lock_piece}

-- The squares that the loops have passed before round (i, j).
abbrev Before : ℕ → ℕ → ℕ → ℕ → Type 0
Before i j i' j' = (i' < i) ⊎ (i' ≡ i) × (j' < j)

-- Cell (a, b) lies under a square of the piece of `p`.
pub record Covered (p : Play) (a b : ℕ) : Type 0 where
  pub i : ℕ
  pub j : ℕ
  pub i_small : i < 4
  pub j_small : j < 4
  pub filled : space p.shape p.form i j ≡ some 1
  pub at_row : a ≡ pos_part (cell_row p.row i)
  pub at_col : b ≡ pos_part (cell_row p.col j)

-- `q` is `p` with squares of its piece written into the board: those before round (i, j), and no
-- other cell is changed.
pub record Locked (i j : ℕ) (p q : Play) : Type 0 where
  pub rest : q ≡ record p { cells = q.cells; colors = q.colors }
  pub only : (a b : ℕ) → (q.cells a b ≡ p.cells a b) ⊎ (q.cells a b ≡ 1) × Covered p a b
  pub written :
      (i' j' : ℕ)
      → i' < 4
      → j' < 4
      → Before i j i' j'
      → space p.shape p.form i' j' ≡ some 1
      → q.cells (pos_part (cell_row p.row i')) (pos_part (cell_row p.col j')) ≡ 1

Locked-none : (p : Play) → Locked 0 0 p p
Locked-none p = record {
  rest = refl;
  only = λ a b. inl refl;
  written = λ i' j' hi hj h. absurd (omega (arith, h));
}

Locked-row : (i : ℕ) (p q : Play) → Locked i 4 p q → Locked (i + 1) 0 p q
Locked-row i p q l = record {
  rest = l.rest;
  only = l.only;
  written = λ i' j' hi hj h. l.written i' j' hi hj (omega (arith, h));
}

-- A square with no block.
Locked-skip :
    (i j : ℕ) (p q : Play)
    → space p.shape p.form i j ≡ some 0
    → Locked i j p q
    → Locked i (j + 1) p q
Locked-skip i j p q e l = record {
  rest = l.rest;
  only = l.only;
  written = λ i' j' hi hj h f. elim (ℕ_discrete i' i) [
    | no ne ↦ l.written i' j' hi hj (omega (arith, h)) f
    | yes ei ↦ elim (dec_lt j' j) [
      | yes lt ↦ l.written i' j' hi hj (inr (ei, lt)) f
      | no ge ↦
          let ej : j' ≡ j = omega (arith, h) in
          absurd (clash (sym e ∙ (λ k. space p.shape p.form (sym ei k) (sym ej k)) ∙ f))
    ]
  ];
}
  where
    clash : ◌≢◌ {A = Option ℕ} (some 0) (some 1)
    clash h = ground arith

-- A square written at its cell (r, c).
Locked-write :
    (i j r c : ℕ) (v : ℤ) (p q : Play)
    → i < 4
    → j < 4
    → space p.shape p.form i j ≡ some 1
    → r ≡ pos_part (cell_row p.row i)
    → c ≡ pos_part (cell_row p.col j)
    → Locked i j p q
    → Locked i (j + 1) p (record q { cells = update q.cells r c 1; colors = update q.colors r c v })
Locked-write i j r c v p q hi hj e er ec l = record {
  rest =
      ap (λ (t : Play). record t { cells = update q.cells r c 1; colors = update q.colors r c v })
        l.rest;
  only = λ a b. elim (update_cases q.cells r c 1 a b) [
    | inl (ea, eb, one) ↦ inr (
      one,
      record {
        i = i;
        j = j;
        i_small = hi;
        j_small = hj;
        filled = e;
        at_row = ea ∙ er;
        at_col = eb ∙ ec;
      },
    )
    | inr same ↦ rw same (l.only a b)
  ];
  written = λ i' j' hi' hj' h f.
      elim (update_cases q.cells r c 1 (pos_part (cell_row p.row i'))
        (pos_part (cell_row p.col j'))) [
          | inl (_, _, one) ↦ one
          | inr same ↦ elim (ℕ_discrete i' i) [
            | no ne ↦ same ∙ l.written i' j' hi' hj' (omega (arith, h)) f
            | yes ei ↦ elim (ℕ_discrete j' j) [
              | no nj ↦ same ∙ l.written i' j' hi' hj' (inr (ei, omega (arith, h))) f
              | yes ej ↦ rw (ei, ej, ← er, ← ec) (update_self q.cells r c 1)
            ]
          ]
        ];
}

write_square-Sure :
    (i j : ℕ) (p : Play) (w : World)
    → i < 4
    → j < 4
    → space p.shape p.form i j ≡ some 1
    → InField (cell_row p.row i) (cell_row p.col j)
    → Locked i j p w.play
    → Ensures (Sure (Locked i (j + 1) p) w) (write_square i j w)
unfolding write_square
write_square-Sure i j p w hi hj e f l =
    let er : cell_row w.row i ≡ cell_row p.row i = ap (λ (t : Play). cell_row t.row i) l.rest in
    let ec : cell_row w.col j ≡ cell_row p.col j = ap (λ (t : Play). cell_row t.col j) l.rest in
    let r = pos_part (cell_row w.row i) in
    let c = pos_part (cell_row w.col j) in
    let f' : InField (cell_row w.row i) (cell_row w.col j) = subst₂ InField (sym er) (sym ec) f in
    rw (set_data-InField (cell_row w.row i) (cell_row w.col j) f' 1 w, ◌>>◌, ◌>>=◌)
      (rw
        (
          set_color-InField (cell_row w.row i) (cell_row w.col j) f' (pos w.shape)
              (set_play w (record w.play { cells = update w.cells r c 1 })),
          ◌>>◌,
          ◌>>=◌,
        )
        (returns (
          refl,
          Does-play w _ true refl (
              Locked-write i j r c (pos w.shape) p w.play hi hj e (ap pos_part er) (ap pos_part ec)
                l),
        )))

module _ (p : Play) (piece : PieceInField p) where
  lock_square-Sure :
      (i j : ℕ) (w : World)
      → i < 4
      → j < 4
      → Locked i j p w.play
      → Ensures (Sure (Locked i (j + 1) p) w) (lock_square i j w)
  unfolding lock_square
  lock_square-Sure i j w hi hj l =
      let same : space w.shape w.form i j ≡ space p.shape p.form i j =
        ap (λ (t : Play). space t.shape t.form i j) l.rest in
      elim (space_cases p.shape p.form i j piece.shape piece.form hi hj) [
        | inl e ↦
            rw (same ∙ e, lock_square)
              (returns (refl, Does-play w w.play true refl (Locked-skip i j p w.play e l)))
        | inr e ↦
            rw (same ∙ e, lock_square)
              (write_square-Sure i j p w hi hj e (piece.squares i j hi hj e) l)
      ]

  pub lock_piece-Sure : (w : World) → w.play ≡ p → Ensures (Sure (Locked 4 0 p) w) (lock_piece w)
  unfolding lock_piece
  lock_piece-Sure w at =
      for_range-Sure (λ i q. Locked i 0 p q) (λ i. for_range 4 0 λ j. lock_square i j) 4
        (λ i v hi l.
          Ensures-mono (λ b u s. (s.0, Does-weaken (λ q x. Locked-row i p q x) s.1))
            (for_range-Sure (λ j q. Locked i j p q) (lock_square i) 4
              (λ j u hj k. lock_square-Sure i j u hi hj k) 4 0 v refl l))
        4 0 w refl (rw at (Locked-none p))

-- For a piece that lies in the field, the loops run to their end inside of both arrays. They write
-- a block into the cell of every square of the piece, and change no other cell and nothing else but
-- the colours.
pub lock_piece-Locked :
    (w : World)
    → PieceInField w.play
    → Ensures (λ b w'. (b ≡ true) × Locked 4 0 w.play w'.play) (lock_piece w)
lock_piece-Locked w piece =
    Ensures-mono (λ b w' s. (s.0, s.1.play s.0)) (lock_piece-Sure w.play piece w refl)
