-- ===== src/Screens/Scores/Ranked.antt =====
-- Which players the tables of the best scores show, and in which rows.
use russia_tetris.Base.{
  ℕ, zero, suc, ◌+◌, ◌≤◌, ◌≡◌, refl, sym, ap, ◌∙◌, List, [], ◌∷◌, true, false, ltb, leb, ◌==◌,
  if◌then◌else◌, length, take, arith, Bool-cases, inl, inr,
}
use russia_tetris.Screens.{Item, line}
use russia_tetris.Screens.Scores.{
  Best, Player, entry, all_positive, best_until, best_after, easy_entries, later_entries,
}

unfoldable pub positive : (Player → Best) → List Player → List Player
positive mode [] = []
positive mode (p ∷ ps) = elim (ltb 0 (mode p).score) [
  | true ↦ p ∷ positive mode ps
  | false ↦ positive mode ps
]

-- The rows `row`, `row + 1` and so on, with the entries of the players.
unfoldable pub rows_of : (Player → Best) → ℕ → ℕ → List Player → List Item
rows_of mode row col [] = []
rows_of mode row col (p ∷ ps) = line row col (entry mode p) ∷ rows_of mode (row + 1) col ps

-- Sorted, the greatest score first, and none above the bound.
pub data Below (mode : Player → Best) : ℕ → List Player → Type 0 where
  empty : {bound : ℕ} → Below mode bound []
  next :
      {bound : ℕ} {p : Player} {ps : List Player}
      → (mode p).score ≤ bound
      → Below mode (mode p).score ps
      → Below mode bound (p ∷ ps)

take_nil : (n : ℕ) → take {A = Player} n [] ≡ []
take_nil zero = refl
take_nil (suc n) = refl

take_short : (n : ℕ) (ps : List Player) → length ps ≤ n → take n ps ≡ ps
take_short zero [] h = refl
take_short zero (p ∷ ps) h = absurd (omega arith)
take_short (suc n) [] h = refl
take_short (suc n) (p ∷ ps) h = rw (take_short n ps (omega arith)) refl

length-positive : (mode : Player → Best) (ps : List Player) → length (positive mode ps) ≤ length ps
unfolding positive
length-positive mode [] = omega arith
length-positive mode (p ∷ ps) = elim (Bool-cases (ltb 0 (mode p).score)) [
  | inl e ↦ rw (e, positive) (omega (arith, length-positive mode ps))
  | inr e ↦ rw (e, positive) (omega (arith, length-positive mode ps))
]

positive-Below :
    (mode : Player → Best) (b : ℕ) (ps : List Player)
    → Below mode b ps
    → b ≡ 0
    → positive mode ps ≡ []
unfolding positive
positive-Below mode b [] s z = refl
positive-Below mode b (p ∷ ps) (next le s) z =
    let none : ltb 0 (mode p).score ≡ false = ground arith in
    rw (none, positive) (positive-Below mode (mode p).score ps s (omega arith))

all_positive-rows :
    (mode : Player → Best) (row col : ℕ) (ps : List Player)
    → all_positive mode row col ps ≡ rows_of mode row col (positive mode ps)
unfolding all_positive positive rows_of
all_positive-rows mode row col [] = refl
all_positive-rows mode row col (p ∷ ps) = elim (Bool-cases (ltb 0 (mode p).score)) [
  | inl e ↦
      rw (e, all_positive, positive)
        (ap (λ (t : List Item). line row col (entry mode p) ∷ t)
          (all_positive-rows mode (row + 1) col ps))
  | inr e ↦ rw (e, all_positive, positive) (all_positive-rows mode row col ps)
]

-- The test after a row, with `left` rows to go.
rest_rows :
    (mode : Player → Best) (left row last start col : ℕ) (more : List Item) (qs : List Player)
    → row + suc left ≡ last
    → ((m : ℕ) → left ≡ suc m → more ≡ rows_of mode start col (take left qs))
    → elim (row + 1 == last) as (λ _. List Item) [ true ↦ [] | false ↦ more ]
      ≡ rows_of mode start col (take left qs)
unfolding rows_of
rest_rows mode zero row last start col more qs e go =
    let ends : (row + 1 == last) ≡ true = ground arith in rw ends refl
rest_rows mode (suc m) row last start col more qs e go =
    let goes_on : (row + 1 == last) ≡ false = ground arith in rw goes_on (go m refl)

best_until-rows :
    (mode : Player → Best) (left row last col b : ℕ) (ps : List Player)
    → row + suc left ≡ last
    → Below mode b ps
    → best_until mode row last col ps ≡ rows_of mode row col (take (suc left) (positive mode ps))
unfolding best_until positive rows_of
best_until-rows mode left row last col b [] e s = refl
best_until-rows mode left row last col b (p ∷ ps) e (next le s) =
    elim (Bool-cases ((mode p).score == 0)) [
      | inl z ↦
          let none : ltb 0 (mode p).score ≡ false = ground arith in
          rw (z, none, best_until, positive, positive-Below mode (mode p).score ps s (ground arith))
            refl
      | inr z ↦
          let some_score : ltb 0 (mode p).score ≡ true = ground arith in
          rw (z, some_score, best_until, positive)
            (ap (λ (t : List Item). line row col (entry mode p) ∷ t)
              (rest_rows mode left row last (row + 1) col (best_until mode (row + 1) last col ps)
                (positive mode ps) e
                (λ m is_suc.
                  best_until-rows mode m (row + 1) last col (mode p).score ps (omega arith) s
                  ∙ rw is_suc refl)))
    ]

best_after-rows :
    (mode : Player → Best) (left row last col b : ℕ) (ps : List Player)
    → row + suc left ≡ last
    → Below mode b ps
    → best_after mode row last col ps
      ≡ rows_of mode (row + 1) col (take (suc left) (positive mode ps))
unfolding best_after positive rows_of
best_after-rows mode left row last col b [] e s = refl
best_after-rows mode left row last col b (p ∷ ps) e (next le s) =
    elim (Bool-cases ((mode p).score == 0)) [
      | inl z ↦
          let none : ltb 0 (mode p).score ≡ false = ground arith in
          rw (z, none, best_after, positive, positive-Below mode (mode p).score ps s (ground arith))
            refl
      | inr z ↦
          let some_score : ltb 0 (mode p).score ≡ true = ground arith in
          rw (z, some_score, best_after, positive)
            (ap (λ (t : List Item). line (row + 1) col (entry mode p) ∷ t)
              (rest_rows mode left row last (row + 1 + 1) col
                (best_after mode (row + 1) last col ps) (positive mode ps) e
                (λ m is_suc.
                  best_after-rows mode m (row + 1) last col (mode p).score ps (omega arith) s
                  ∙ rw is_suc refl)))
    ]

-- The first row of the entries of the easy mode.
abbrev pub easy_start : ℕ → List Player → ℕ
easy_start row show = if leb (length show) 10 then row + 3 else row + 4

short_table :
    (mode : Player → Best) (row col : ℕ) (show : List Player)
    → leb (length show) 10 ≡ true
    → all_positive mode row col show ≡ rows_of mode row col (take 10 (positive mode show))
short_table mode row col show short =
    all_positive-rows mode row col show
    ∙ ap (λ (t : List Player). rows_of mode row col t)
        (sym (take_short 10 (positive mode show) (ground (arith, length-positive mode show))))

easy_entries-top_ten :
    (row col b : ℕ) (show : List Player)
    → Below (λ p. p.easy) b show
    → easy_entries row col show
      ≡ rows_of (λ p. p.easy) (easy_start row show) col (take 10 (positive (λ p. p.easy) show))
unfolding easy_entries
easy_entries-top_ten row col b show s = elim (Bool-cases (leb (length show) 10)) [
  | inl short ↦ rw (short, easy_entries) (short_table (λ p. p.easy) (row + 3) col show short)
  | inr long ↦
      let e : row + 3 + 1 ≡ row + 4 = omega arith in
      rw (long, easy_entries, ← e)
        (best_after-rows (λ p. p.easy) 9 (row + 3) (row + 13) col b show (omega arith) s)
]

later_entries-top_ten :
    (row col b : ℕ) (mode : Player → Best) (show : List Player)
    → Below mode b show
    → later_entries mode row col show ≡ rows_of mode (row + 4) col (take 10 (positive mode show))
unfolding later_entries
later_entries-top_ten row col b mode show s = elim (Bool-cases (leb (length show) 10)) [
  | inl short ↦ rw (short, later_entries) (short_table mode (row + 4) col show short)
  | inr long ↦
      rw (long, later_entries)
        (best_until-rows mode 9 (row + 4) (row + 14) col b show (omega arith) s)
]

-- For players sorted by their best score in a mode, the greatest first, a table has one row for each
-- of the first ten with a score above 0, in their order, in rows that follow one another; with more
-- than ten players the table of the easy mode starts a row lower than with ten or fewer.
pub entries-top_ten :
    (row col b c : ℕ) (mode : Player → Best) (show later : List Player)
    → Below (λ p. p.easy) b show
    → Below mode c later
    → (easy_entries row col show
        ≡ rows_of (λ p. p.easy) (easy_start row show) col (take 10 (positive (λ p. p.easy) show)))
      × (later_entries mode row col later
          ≡ rows_of mode (row + 4) col (take 10 (positive mode later)))
entries-top_ten row col b c mode show later s t =
    (easy_entries-top_ten row col b show s, later_entries-top_ten row col c mode later t)
