-- ===== src/Game/Board/Legal.antt =====
-- What `Game::IsLegal` (src/TetrisGame/Game.cpp) answers.
use russia_tetris.Base.{
  ℕ, zero, suc, ◌+◌, ◌≤◌, ◌<◌, ◌≡◌, ◌≢◌, refl, sym, ◌∙◌, inl, inr, ℤ, pos, negsuc, pos_part, ◌≤ℤ◌,
  Bool, true, false, not, ◌==◌, Bool-cases, Option, none, some, arith, dec_lt,
}
use russia_tetris.World.{Play}
use russia_tetris.Game.Blocks.{space}
use russia_tetris.Game.Blocks.Forms.{space_cases}
use russia_tetris.Game.Board.{
  cell_row, outside, index, get_data, legal_square, check_range, is_legal,
}

-- A cell of the field: rows 0 to 22, columns 1 to 18.
pub record InField (r c : ℤ) : Type 0 where
  pub top : pos 0 ≤ℤ r
  pub bottom : r ≤ℤ pos 22
  pub left : pos 1 ≤ℤ c
  pub right : c ≤ℤ pos 18

-- A cell of the field with no block in it.
pub record IsFree (p : Play) (r c : ℤ) : Type 0 where
  pub inside : InField r c
  pub empty : p.cells (pos_part r) (pos_part c) ≢ 1

-- Every square of the form at (row, col) lies on a free cell.
abbrev pub Legal : Play → ℕ → ℕ → ℤ → ℤ → Type 0
Legal p shape form row col =
    (i j : ℕ)
    → i < 4
    → j < 4
    → space shape form i j ≡ some 1
    → IsFree p (cell_row row i) (cell_row col j)

-- The call returns, and its result says whether `P` holds.
pub record Decides (P : Type 0) (o : Option Bool) : Type 0 where
  pub result : Bool
  pub returns : o ≡ some result
  pub sound : result ≡ true → P
  pub complete : P → result ≡ true

outside-InField : (r c : ℤ) → outside r c ≡ false → InField r c
unfolding outside
outside-InField r c h = record {
  top = ground arith;
  bottom = ground arith;
  left = ground arith;
  right = ground arith;
}

InField-outside : (r c : ℤ) → InField r c → outside r c ≡ false
unfolding outside
InField-outside r c h = ground arith

-- A cell of the field is an element of the array.
pub index-InField : (r c : ℤ) → InField r c → index r c ≡ some (pos_part r, pos_part c)
unfolding index
index-InField (pos r) (pos c) h = ground arith
index-InField (pos r) (negsuc c) h = absurd (omega (arith, h.left))
index-InField (negsuc r) (pos c) h = absurd (omega (arith, h.top))
index-InField (negsuc r) (negsuc c) h = absurd (omega (arith, h.top))

module _ (p : Play) (shape form : ℕ) (row col : ℤ) where
  abbrev SquareFree : ℕ → ℕ → Type 0
  SquareFree i j = space shape form i j ≡ some 1 → IsFree p (cell_row row i) (cell_row col j)

  filled_square :
      (i j : ℕ)
      → space shape form i j ≡ some 1
      → Decides (IsFree p (cell_row row i) (cell_row col j)) (legal_square p shape form row col i j)
  unfolding legal_square get_data
  filled_square i j e =
      let r = cell_row row i in
      let c = cell_row col j in
      elim (Bool-cases (outside r c)) [
        | inl out ↦ record {
          result = false;
          returns = rw (e, legal_square, out);
          sound = λ h. cc;
          complete = λ f. cc (InField-outside r c f.inside);
        }
        | inr inside ↦
            let f = outside-InField r c inside in
            record {
              result = not (p.cells (pos_part r) (pos_part c) == 1);
              returns = rw (e, legal_square, inside, index-InField r c f);
              sound = λ h. record { inside = f; empty = ground arith };
              complete = λ g. ground (arith, g.empty);
            }
      ]

  legal_square-Decides :
      (i j : ℕ)
      → shape < 7
      → form < 4
      → i < 4
      → j < 4
      → Decides (SquareFree i j) (legal_square p shape form row col i j)
  unfolding legal_square
  legal_square-Decides i j hs hf hi hj = elim (space_cases shape form i j hs hf hi hj) [
    | inl e ↦ record {
      result = true;
      returns = rw (e, legal_square);
      sound = λ _ e'. absurd (ground (arith, e, e'));
      complete = λ _. refl;
    }
    | inr e ↦
        let d = filled_square i j e in
        record {
          result = d.result;
          returns = d.returns;
          sound = λ h _. d.sound h;
          complete = λ f. d.complete (f e);
        }
  ]

abbrev FromTo : ℕ → ℕ → (ℕ → Type 0) → Type 0
FromTo i last P = (j : ℕ) → i ≤ j → j < last → P j

check_cons :
    (P Q R : Type 0) (o rest : Option Bool)
    → Decides P o
    → Decides Q rest
    → (P → Q → R)
    → (R → P)
    → (R → Q)
    → Decides R (elim o [ none ↦ none | some b ↦ elim b [ true ↦ rest | false ↦ some false ] ])
check_cons P Q R o rest d e both first second = elim (Bool-cases d.result) [
  | inl yes' ↦ record {
    result = e.result;
    returns = rw (d.returns, yes') e.returns;
    sound = λ h. both (d.sound yes') (e.sound h);
    complete = λ r. e.complete (second r);
  }
  | inr no' ↦ record {
    result = false;
    returns = rw (d.returns, no');
    sound = λ h. cc;
    complete = λ r. cc (d.complete (first r));
  }
]

check_range-Decides :
    (P : ℕ → Type 0) (test : ℕ → Option Bool) (n i last : ℕ)
    → ((j : ℕ) → j < last → Decides (P j) (test j))
    → i + n ≡ last
    → Decides (FromTo i last P) (check_range n i test)
unfolding check_range
check_range-Decides P test zero i last each e = record {
  result = true;
  returns = refl;
  sound = λ _ j h k. absurd (omega arith);
  complete = λ _. refl;
}
check_range-Decides P test (suc n) i last each e =
    check_cons (P i) (FromTo (i + 1) last P) (FromTo i last P) (test i) _ (each i (omega arith))
      (check_range-Decides P test n (i + 1) last each (omega arith))
      (λ now later j h k. split now later j h k (dec_lt i j))
      (λ all. all i (omega arith) (omega arith)) (λ all j h k. all j (omega arith) k)
  where
    split : P i → FromTo (i + 1) last P → (j : ℕ) → i ≤ j → j < last → Dec (i < j) → P j
    split now later j h k (yes lt) = later j (omega arith) k
    split now later j h k (no ge) = let same : i ≡ j = omega arith in rw (← same) now

-- For a form of the table `IsLegal` stays inside of both arrays, and answers whether every square
-- of the form lies in the field on a cell with no block.
pub is_legal-Decides :
    (p : Play) (shape form : ℕ) (row col : ℤ)
    → shape < 7
    → form < 4
    → Decides (Legal p shape form row col) (is_legal p shape form row col)
unfolding is_legal
is_legal-Decides p shape form row col hs hf =
    let all =
      check_range-Decides (λ i. FromTo 0 4 (SquareFree p shape form row col i))
        (λ i. check_range 4 0 λ j. legal_square p shape form row col i j) 4 0 4
        (λ i hi.
          check_range-Decides (SquareFree p shape form row col i) _ 4 0 4
            (λ j hj. legal_square-Decides p shape form row col i j hs hf hi hj) refl)
        refl in
    record {
      result = all.result;
      returns = all.returns;
      sound = λ h i j hi hj e. all.sound h i (omega arith) hi j (omega arith) hj e;
      complete = λ legal. all.complete λ i _ hi j _ hj e. legal i j hi hj e;
    }

pub is_legal-Legal :
    (p : Play) (shape form : ℕ) (row col : ℤ)
    → shape < 7
    → form < 4
    → is_legal p shape form row col ≡ some true
    → Legal p shape form row col
is_legal-Legal p shape form row col hs hf e =
    let d = is_legal-Decides p shape form row col hs hf in d.sound (answer (sym d.returns ∙ e))
  where
    answer : {b : Bool} → some b ≡ some true → b ≡ true
    answer h = ground arith
