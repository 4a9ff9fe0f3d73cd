-- ===== src/Game/Lines/Conserved.antt =====
-- What one plain pass does to the number of blocks, and what it leaves alone.
use russia_tetris.Base.{
  ℕ, zero, suc, ◌+◌, ◌*◌, ◌≤◌, ◌<◌, ◌≡◌, ◌≢◌, refl, ap, ◌∙◌, ◌⊎◌, inl, inr, Bool-cases, ==_iff, ltb,
  ◌==◌, Option, none, some, arith, dec_lt, ltb→lt, ltb_false→le,
}
use russia_tetris.World.{Play}
use russia_tetris.Game.Lines.{Pass, again, finished}
use russia_tetris.Game.Lines.Plain.{
  row_total, blanked, copied_row, Outcome, shifted, go_on, counted, cleared, scanned, copied,
  blank_cols,
}
use russia_tetris.Game.Lines.Count.{
  field_total, row_total-congr, field_total-congr, row_total-copied, copied_other, row_total-blank,
  blank_other, field_total-suc, row_total_bound,
}

-- `q` is `p` but for the line count, the colours, and cells in rows 2 to m and columns 1 to 18. Cells
-- that held 0 or 1 still do.
pub record Within (m : ℕ) (p q : Play) : Type 0 where
  pub rest : q ≡ record p { line = q.line; cells = q.cells; colors = q.colors }
  pub outside : (i j : ℕ) → (i < 2) ⊎ (m < i) ⊎ (j ≡ 0) ⊎ (19 ≤ j) → q.cells i j ≡ p.cells i j
  pub bits :
      ((i j : ℕ) → i < 23 → 0 < j → j < 19 → p.cells i j ≤ 1)
      → (i j : ℕ) → i < 23
      → 0 < j
      → j < 19
      → q.cells i j ≤ 1

pub Within-refl : (m : ℕ) (p : Play) → Within m p p
Within-refl m p = record { rest = refl; outside = λ i j h. refl; bits = λ h. h }

pub Within-trans : (m n : ℕ) (p q r : Play) → m ≤ n → Within n p q → Within m q r → Within n p r
Within-trans m n p q r h a b = record {
  rest = ground (arith, a.rest, b.rest);
  outside = λ i j o. b.outside i j (omega (arith, o)) ∙ a.outside i j o;
  bits = λ s. b.bits (a.bits s);
}

blanked-Within : (i : ℕ) (p : Play) → 1 < i → Within i p (blanked i (counted p))
unfolding blanked blank_cols
blanked-Within i p h = record {
  rest = refl;
  outside = λ a b o. ground (arith, o);
  bits = λ s a b ha lo hi. ground (arith, s a b ha lo hi);
}

copied_row-Within :
    (k : ℕ) (p : Play)
    → suc (suc k) < 23
    → Within (suc (suc k)) p (copied_row (suc k) (suc (suc k)) p)
unfolding copied_row copied
copied_row-Within k p h = record {
  rest = refl;
  outside = λ a b o. ground (arith, o);
  bits = λ s a b ha lo hi. ground (arith, s a b ha lo hi, s (suc k) b (omega arith) lo hi);
}

-- Moving the rows above m down: the blocks of row m are gone; when the loop met no empty row, those of
-- row 1 are there twice.
abbrev pub Moved : ℕ → Play → Outcome → Type 0
Moved m p (r, q) =
    Within m p q
    × (q.line ≡ p.line)
    × ((r ≡ some again) × (field_total m q.cells + row_total p.cells m ≡ field_total m p.cells)
        ⊎ (r ≡ none)
          × (field_total m q.cells + row_total p.cells m
              ≡ field_total m p.cells + row_total p.cells 1)
          × (row_total p.cells 1 ≢ 0 ⊎ m ≤ 1))

Moved-step :
    (k : ℕ) (p : Play) (r : Option Pass) (q : Play)
    → suc (suc k) < 23
    → row_total p.cells (suc k) ≢ 0
    → Moved (suc k) (copied_row (suc k) (suc (suc k)) p) (r, q)
    → Moved (suc (suc k)) p (r, q)
unfolding field_total copied_row
Moved-step k p r q h ne (within, line, sum) = (
  Within-trans (suc k) (suc (suc k)) p _ q (omega arith) (copied_row-Within k p h) within,
  line,
  ground (arith, sum, top, one, here, same),
)
  where
    p' : Play
    p' = copied_row (suc k) (suc (suc k)) p

    top : row_total q.cells (suc (suc k)) ≡ row_total p.cells (suc k)
    top =
        row_total-congr q.cells p'.cells (suc (suc k)) (suc (suc k))
          (λ b lo hi. within.outside (suc (suc k)) b (inr (inl (omega arith))))
        ∙ row_total-copied p.cells (suc k) (suc (suc k))

    one : row_total p'.cells 1 ≡ row_total p.cells 1
    one =
        row_total-congr p'.cells p.cells 1 1
          (λ b lo hi. copied_other p.cells (suc k) (suc (suc k)) 1 b (omega arith))

    here : row_total p'.cells (suc k) ≡ row_total p.cells (suc k)
    here =
        row_total-congr p'.cells p.cells (suc k) (suc k)
          (λ b lo hi. copied_other p.cells (suc k) (suc (suc k)) (suc k) b (omega arith))

    same : field_total (suc k) p'.cells ≡ field_total (suc k) p.cells
    same =
        field_total-congr p'.cells p.cells (suc k)
          (λ l b hl lo hi. copied_other p.cells (suc k) (suc (suc k)) l b (omega arith))

pub shifted-Moved : (m : ℕ) (p : Play) → 0 < m → m < 23 → Moved m p (shifted m p)
unfolding shifted field_total copied_row
shifted-Moved zero p lo h = absurd (omega arith)
shifted-Moved (suc zero) p lo h =
    (Within-refl 1 p, refl, inr (refl, omega arith, inr (omega arith)))
shifted-Moved (suc (suc k)) p lo h = elim (Bool-cases (row_total p.cells (suc k) == 0)) [
  | inl e ↦ rw e (
    copied_row-Within k p h,
    refl,
    inl (
      refl,
      omega (
        arith,
        (==_iff _ 0).0 e,
        row_total-copied p.cells (suc k) (suc (suc k)),
        field_total-congr (copied_row (suc k) (suc (suc k)) p).cells p.cells (suc k)
            (λ l b hl lo' hi. copied_other p.cells (suc k) (suc (suc k)) l b (omega arith)),
      ),
    ),
  )
  | inr e ↦ rw e (
      Moved-step k p (shifted (suc k) (copied_row (suc k) (suc (suc k)) p)).0
        (shifted (suc k) (copied_row (suc k) (suc (suc k)) p)).1 h (λ z. cc ((==_iff _ 0).1 z))
        (shifted-Moved (suc k) (copied_row (suc k) (suc (suc k)) p) (omega arith) (omega arith)))
]

abbrev pub Bits : Play → Type 0
Bits p = (i j : ℕ) → i < 23 → 0 < j → j < 19 → p.cells i j ≤ 1

-- No row of 5 to i is full, as far as the rows from i upwards hold a block.
abbrev pub NoFull : ℕ → Play → Type 0
NoFull i p =
    (k : ℕ)
    → 4 < k
    → k ≤ i
    → ((l : ℕ) → k ≤ l → l ≤ i → row_total p.cells l ≢ 0)
    → row_total p.cells k ≢ 18

-- A pass over rows i, i - 1, ..., 5.
pub record Scanned (i : ℕ) (p : Play) (r : Pass) (q : Play) : Type 0 where
  pub within : Within i p q
  pub returned : (r ≡ again) ⊎ (r ≡ finished)
  pub never_more : Bits p → field_total i q.cells ≤ field_total i p.cells
  pub fewer : Bits p → r ≡ again → field_total i q.cells + 18 ≤ field_total i p.cells
  pub conserved :
      row_total p.cells 1 ≡ 0
      → field_total i q.cells + 18 * q.line ≡ field_total i p.cells + 18 * p.line
  pub unchanged : row_total p.cells 1 ≡ 0 → r ≡ finished → q ≡ p
  pub no_full : row_total p.cells 1 ≡ 0 → r ≡ finished → NoFull i p

nothing-Scanned : (i : ℕ) (p : Play) → NoFull i p → Scanned i p finished p
nothing-Scanned i p n = record {
  within = Within-refl i p;
  returned = inr refl;
  never_more = λ _. omega arith;
  fewer = λ _ e. cc;
  conserved = λ _. refl;
  unchanged = λ _ _. refl;
  no_full = λ _ _. n;
}

-- A row that is neither empty nor full is passed over.
passed_over-Scanned :
    (i : ℕ) (p : Play) (r : Pass) (q : Play)
    → row_total p.cells (suc i) ≢ 18
    → Scanned i p r q
    → Scanned (suc i) p r q
unfolding field_total
passed_over-Scanned i p r q part s = record {
  within = Within-trans i (suc i) p p q (omega arith) (Within-refl (suc i) p) s.within;
  returned = s.returned;
  never_more = λ b. omega (arith, s.never_more b, top);
  fewer = λ b e. omega (arith, s.fewer b e, top);
  conserved = λ one. omega (arith, s.conserved one, top);
  unchanged = s.unchanged;
  no_full = λ one e k lo hi above. elim (dec_lt k (suc i)) [
    | yes lt ↦ s.no_full one e k lo (omega arith) (λ l h1 h2. above l h1 (omega arith))
    | no ge ↦ let same : k ≡ suc i = omega arith in rw same part
  ];
}
  where
    top : row_total q.cells (suc i) ≡ row_total p.cells (suc i)
    top =
        row_total-congr q.cells p.cells (suc i) (suc i)
          (λ b lo hi. s.within.outside (suc i) b (inr (inl (omega arith))))

-- A full row is cleared: the pass ends by `again`, or goes on above it.
module _ (n : ℕ) (p : Play) (lo : 4 < suc n) (hi : suc n < 23)
    (full : row_total p.cells (suc n) ≡ 18) where
  abbrev emptied : Play
  emptied = blanked (suc n) (counted p)

  emptied_total : field_total (suc n) emptied.cells + 18 ≡ field_total (suc n) p.cells
  unfolding field_total blanked
  emptied_total = omega (
    arith,
    full,
    row_total-blank p.cells (suc n),
    field_total-congr emptied.cells p.cells n
        (λ k b hk l h. blank_other p.cells (suc n) k b (omega arith)),
  )

  emptied_row : row_total emptied.cells (suc n) ≡ 0
  unfolding blanked
  emptied_row = row_total-blank p.cells (suc n)

  emptied_top : row_total emptied.cells 1 ≡ row_total p.cells 1
  unfolding blanked
  emptied_top =
      row_total-congr emptied.cells p.cells 1 1
        (λ b l h. blank_other p.cells (suc n) 1 b (omega arith))

  emptied_line : emptied.line ≡ p.line + 1
  unfolding blanked
  emptied_line = refl

  emptied-Within : Within (suc n) p emptied
  emptied-Within = blanked-Within (suc n) p (omega arith)

  ended-Scanned : (r : Pass) (u : Play) → Moved (suc n) emptied (some r, u) → Scanned (suc n) p r u
  ended-Scanned r u (w, line, m) = record {
    within = Within-trans (suc n) (suc n) p emptied u (omega arith) emptied-Within w;
    returned = inl is_again;
    never_more = λ _. omega (arith, sum, emptied_total, emptied_row);
    fewer = λ _ _. omega (arith, sum, emptied_total, emptied_row);
    conserved = λ _. omega (arith, sum, emptied_total, emptied_row, line, emptied_line);
    unchanged = λ _ e. cc is_again;
    no_full = λ _ e. cc is_again;
  }
    where
      is_again : r ≡ again
      is_again = ground (arith, m)

      sum :
          field_total (suc n) u.cells + row_total emptied.cells (suc n)
          ≡ field_total (suc n) emptied.cells
      sum = ground (arith, m)

  went_on-Scanned :
      (u : Play) (r : Pass) (q : Play)
      → Moved (suc n) emptied (none, u)
      → Scanned n u r q
      → Scanned (suc n) p r q
  went_on-Scanned u r q (w, line, m) s = record {
    within =
        Within-trans n (suc n) p u q (omega arith)
          (Within-trans (suc n) (suc n) p emptied u (omega arith) emptied-Within w) s.within;
    returned = s.returned;
    never_more = λ b. omega (
      arith,
      sum,
      emptied_total,
      emptied_row,
      emptied_top,
      few b,
      s.never_more (bits b),
      split_u,
      split_q,
    );
    fewer = λ b e. omega (
      arith,
      sum,
      emptied_total,
      emptied_row,
      emptied_top,
      few b,
      s.fewer (bits b) e,
      split_u,
      split_q,
    );
    conserved = λ one. absurd (blocked (omega (arith, emptied_top, one)));
    unchanged = λ one e. absurd (blocked (omega (arith, emptied_top, one)));
    no_full = λ one e. absurd (blocked (omega (arith, emptied_top, one)));
  }
    where
      sum :
          field_total (suc n) u.cells + row_total emptied.cells (suc n)
          ≡ field_total (suc n) emptied.cells + row_total emptied.cells 1
      sum = ground (arith, m)

      blocked : row_total emptied.cells 1 ≢ 0
      blocked = ground (arith, m)

      few : Bits p → row_total p.cells 1 ≤ 18
      few b = row_total_bound p.cells 1 (λ j lo' hi'. b 1 j (omega arith) lo' hi')

      bits : Bits p → Bits u
      bits b = w.bits (emptied-Within.bits b)

      split_u : field_total (suc n) u.cells ≡ row_total u.cells (suc n) + field_total n u.cells
      split_u = field_total-suc n u.cells

      split_q : field_total (suc n) q.cells ≡ row_total u.cells (suc n) + field_total n q.cells
      split_q =
          field_total-suc n q.cells
          ∙ ap (λ t. t + field_total n q.cells)
              (row_total-congr q.cells u.cells (suc n) (suc n)
                (λ b lo' hi'. s.within.outside (suc n) b (inr (inl (omega arith)))))

  go_on-Scanned :
      (plain : Play → Pass × Play)
      → ((u : Play) → Scanned n u (plain u).0 (plain u).1)
      → (o : Outcome) → Moved (suc n) emptied o
      → Scanned (suc n) p (go_on plain o).0 (go_on plain o).1
  unfolding go_on
  go_on-Scanned plain rest (some r, u) m = ended-Scanned r u m
  go_on-Scanned plain rest (none, u) m = went_on-Scanned u (plain u).0 (plain u).1 m (rest u)

-- A pass over the plain play ends by `again` or `finished`. It never adds blocks; one that ends by `again`
-- takes away 18 at least. When row 1 is empty every counted line takes away 18, and a pass that ends by
-- `finished` changed nothing, and met no full row down to the first empty one.
pub scanned-Scanned : (i : ℕ) (p : Play) → i < 23 → Scanned i p (scanned i p).0 (scanned i p).1
unfolding scanned cleared go_on
scanned-Scanned zero p h = nothing-Scanned 0 p (λ k lo hi. absurd (omega arith))
scanned-Scanned (suc i) p h = elim (Bool-cases (ltb 4 (suc i))) [
  | inr low ↦
      rw low
        (nothing-Scanned (suc i) p (λ k lo hi. absurd (omega (arith, ltb_false→le 4 (suc i) low))))
  | inl high ↦ rw high (elim (Bool-cases (row_total p.cells (suc i) == 0)) [
    | inl e ↦ rw e (
        nothing-Scanned (suc i) p
          (λ k lo hi all. absurd (all (suc i) hi (omega arith) ((==_iff _ 0).0 e))))
    | inr e ↦ rw e (elim (Bool-cases (row_total p.cells (suc i) == 18)) [
      | inl full ↦ rw full (
          go_on-Scanned i p (ltb→lt 4 (suc i) high) h ((==_iff _ 18).0 full) (scanned i)
            (λ u. scanned-Scanned i u (omega arith)) _
            (shifted-Moved (suc i) (blanked (suc i) (counted p)) (omega arith) h))
      | inr part ↦ rw part (
          passed_over-Scanned i p (scanned i p).0 (scanned i p).1
            (λ full. cc ((==_iff _ 18).1 full)) (scanned-Scanned i p (omega arith)))
    ])
  ])
]
