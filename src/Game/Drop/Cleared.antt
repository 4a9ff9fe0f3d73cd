-- ===== src/Game/Drop/Cleared.antt =====
-- The loop over the full lines of `Game::processBlockDown` ends, and what it leaves.
use russia_tetris.Base.{
  ℕ, zero, suc, ◌+◌, ◌*◌, ◌≤◌, ◌<◌, ◌≡◌, refl, sym, subst, ◌∙◌, inl, Bool, true, false, Option,
  none, some, arith,
}
use russia_tetris.World.{World, Play}
use russia_tetris.Effect.{M, Ensures, returns, Ensures-mono, return}
use russia_tetris.Effect.Does.{Does, Does-play, Does-weaken, >>=-Doing}
use russia_tetris.Game.Lines.{Pass, failed, again, finished, is_increase_score}
use russia_tetris.Game.Lines.Plain.{row_total}
use russia_tetris.Game.Lines.Refines.{passed, is_increase_score-Doing}
use russia_tetris.Game.Lines.Count.{field_total, row_total-congr, field_total_bound}
use russia_tetris.Game.Lines.Conserved.{
  Within, Within-trans, Bits, NoFull, Scanned, scanned-Scanned,
}
use russia_tetris.Game.Drop.{clear_lines, line_rounds}

-- What clearing the full lines of `p` leaves: only cells of rows 2 to 22 change, and no block is
-- added. When row 1 was empty, each counted line took away 18 blocks, and no row of 5 to 22 is full,
-- as far as the rows from the bottom up hold a block.
pub record Settled (p q : Play) : Type 0 where
  pub within : Within 22 p q
  pub never_more : field_total 22 q.cells ≤ field_total 22 p.cells
  pub conserved :
      row_total p.cells 1 ≡ 0
      → field_total 22 q.cells + 18 * q.line ≡ field_total 22 p.cells + 18 * p.line
  pub no_full : row_total p.cells 1 ≡ 0 → NoFull 22 q

-- Results that no output ended.
unfoldable pub completed : Option Bool → Bool
completed none = true
completed (some b) = b

top_row : {p q : Play} {m : ℕ} → Within m p q → row_total q.cells 1 ≡ row_total p.cells 1
top_row {p} {q} w =
    row_total-congr q.cells p.cells 1 1 (λ b lo hi. w.outside 1 b (inl (omega arith)))

Settled-last : (p q : Play) → Bits p → Scanned 22 p finished q → Settled p q
Settled-last p q b s = record {
  within = s.within;
  never_more = s.never_more b;
  conserved = s.conserved;
  no_full = λ one. rw (s.unchanged one refl) (s.no_full one refl);
}

Settled-again : (p q r : Play) → Bits p → Scanned 22 p again q → Settled q r → Settled p r
Settled-again p q r b s t = record {
  within = Within-trans 22 22 p q r (omega arith) s.within t.within;
  never_more = omega (arith, t.never_more, s.never_more b);
  conserved = λ one. omega (arith, s.conserved one, t.conserved (top_row {m = 22} s.within ∙ one));
  no_full = λ one. t.no_full (top_row {m = 22} s.within ∙ one);
}

abbrev Clearing : Play → M (Option Bool) → World → Type 0
Clearing p m v = Ensures (Does completed (λ r q. (r ≡ some true) × Settled p q) v) (m v)

-- What follows one pass, `rest` being the other rounds.
after_pass :
    (p : Play) (rest : M (Option Bool)) (r : Pass) (v : World)
    → Bits p
    → (r ≡ again → Clearing v.play rest v)
    → Scanned 22 p r v.play
    → Clearing p
        (elim r [ again ↦ rest | finished ↦ return (some true) | failed ↦ return (some false) ])
        v
unfolding completed
after_pass p rest again v b more s =
    Ensures-mono (λ r' u d. Does-weaken (λ q x. (x.0, Settled-again p v.play q b s x.1)) d)
      (more refl)
after_pass p rest finished v b more s =
    returns (Does-play v v.play (some true) refl (refl, Settled-last p v.play b s))
after_pass p rest failed v b more s = absurd (ground (arith, s.returned))

stopped_pass : (r : Pass) → passed r ≡ false → r ≡ failed
unfolding passed
stopped_pass failed f = refl
stopped_pass again f = cc
stopped_pass finished f = cc

-- Eighteen blocks at least go in every round but the last, so the rounds do not run out.
clear_lines_fuel :
    (fuel : ℕ) (w : World)
    → Bits w.play
    → field_total 22 w.cells < 18 * fuel
    → Clearing w.play (clear_lines fuel) w
unfolding clear_lines completed
clear_lines_fuel zero w bits h = absurd (omega arith)
clear_lines_fuel (suc fuel) w bits h =
    >>=-Doing is_increase_score _ w (is_increase_score-Doing w)
      (λ r v t e.
        let s : Scanned 22 w.play r v.play =
          subst (λ (o : Pass × Play). Scanned 22 w.play o.0 o.1) (sym e)
            (scanned-Scanned 22 w.play (omega arith)) in
        after_pass w.play (clear_lines fuel) r v bits
          (λ a. clear_lines_fuel fuel v (s.within.bits bits) (omega (arith, s.fewer bits a))) s)
      (λ r v f. (some false, rw (stopped_pass r f), refl))

pub clear_lines-Settled :
    (w : World)
    → Bits w.play
    → Ensures
        (Does completed (λ r q. (r ≡ some true) × Settled w.play q) w)
        (clear_lines line_rounds w)
clear_lines-Settled w bits =
    clear_lines_fuel 23 w bits (omega (arith, field_total_bound 22 w.cells (omega arith) bits))

-- For cells that hold 0 or 1, the loop over the lines ends within 23 rounds, whatever the socket does.
pub clear_lines_ends :
    (w : World)
    → Bits w.play
    → Ensures (λ r w'. (b : Bool) × (r ≡ some b)) (clear_lines line_rounds w)
unfolding completed
clear_lines_ends w bits = Ensures-mono answer (clear_lines-Settled w bits)
  where
    answer :
        (r : Option Bool) (w' : World)
        → Does completed (λ x q. (x ≡ some true) × Settled w.play q) w r w'
        → (b : Bool) × (r ≡ some b)
    answer none w' d = absurd (ground (arith, (d.play refl).0))
    answer (some b) w' d = (b, refl)

-- In a batch, when the cells hold 0 or 1 and row 1 is empty, the loop runs to its end. Every line
-- that it counts takes 18 blocks out of the field and no other block is lost or added; only rows 2 to
-- 22 change; and afterwards no row of 5 to 22 is full down to the first empty one from below.
pub clear_lines_conserve :
    (w : World)
    → Bits w.play
    → row_total w.cells 1 ≡ 0
    → 0 < w.depth
    → Ensures
        (λ r w'.
          (r ≡ some true)
          × (field_total 22 w'.cells + 18 * w'.line ≡ field_total 22 w.cells + 18 * w.line)
          × Within 22 w.play w'.play
          × NoFull 22 w'.play)
        (clear_lines line_rounds w)
clear_lines_conserve w bits empty h = Ensures-mono use_all (clear_lines-Settled w bits)
  where
    use_all :
        (r : Option Bool) (w' : World)
        → Does completed (λ x q. (x ≡ some true) × Settled w.play q) w r w'
        → (r ≡ some true)
          × (field_total 22 w'.cells + 18 * w'.line ≡ field_total 22 w.cells + 18 * w.line)
          × Within 22 w.play w'.play
          × NoFull 22 w'.play
    use_all r w' d =
        let (e, s) = d.play (d.batched h).0 in (e, s.conserved empty, s.within, s.no_full empty)
