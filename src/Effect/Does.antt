-- ===== src/Effect/Does.antt =====
-- A function of the game that draws as it goes and changes the play.
use russia_tetris.Base.{
  ℕ, ◌≤◌, ◌<◌, ◌≡◌, refl, ap, ◌∙◌, ◌⊎◌, inl, inr, Bool, true, false, Bool-cases, some, zero, suc,
  ◌+◌, arith,
}
use russia_tetris.Status.{over_quit}
use russia_tetris.World.{World, Play, set_play}
use russia_tetris.Output.Effect.{Drawn}
use russia_tetris.Effect.{
  M, ◌>>=◌, ◌⟫◌, Ensures, returns, Ensures-mono, >>=-Ensures, ⟫-Ensures, for_range,
}

-- `good` tells the results of a call that ran to its end from those of one that an output ended.
-- One that ran to its end leaves a play that satisfies `R`. In a batch every call does, and leaves
-- the status alone.
pub record Does {A : Type 0} (good : A → Bool) (R : A → Play → Type 0) (w : World) (a : A)
    (w' : World) : Type 0 where
  pub depth : w'.depth ≡ w.depth
  pub saves : w'.write_queue ≡ w.write_queue
  pub time : w'.current_time ≡ w.current_time
  pub status : (w'.status ≡ w.status) ⊎ (w'.status ≡ over_quit)
  pub batched : 0 < w.depth → (good a ≡ true) × (w'.status ≡ w.status)
  pub play : good a ≡ true → R a w'.play

abbrev pub ran : Bool → Bool
ran b = b

abbrev pub Doing : {A : Type 0} → (A → Bool) → (A → Play → Type 0) → M A → World → Type 0
Doing g R m w = Ensures (Does g R w) (m w)

pub Drawn-Does : {w w' : World} {b : Bool} → Drawn w b w' → Does ran (λ _ p. p ≡ w.play) w b w'
Drawn-Does {w} {w'} {b} d = record {
  depth = d.kept.depth;
  saves = d.kept.saves;
  time = d.kept.time;
  status = d.kept.status;
  batched = λ h. let t = d.batched h in (t.0, ap (λ (v : World). v.status) t.3);
  play = λ _. d.kept.play;
}

module _ {A B : Type 0} {g : A → Bool} {h : B → Bool} {R : A → Play → Type 0}
    {S : B → Play → Type 0} {w w' : World} {a : A} where
  -- A call that ran to its end, and then another one.
  pub Does-then : {b : B} {w'' : World} → Does g R w a w' → Does h S w' b w'' → Does h S w b w''
  Does-then {b} {w''} d e = record {
    depth = e.depth ∙ d.depth;
    saves = e.saves ∙ d.saves;
    time = e.time ∙ d.time;
    status = ground (arith, d.status, e.status);
    batched = λ p. let t = e.batched (omega (arith, d.depth)) in (t.0, t.1 ∙ (d.batched p).1);
    play = e.play;
  }

  -- A call that an output ended, and what it was called for with it.
  pub Does-stop : (b : B) → Does g R w a w' → g a ≡ false → h b ≡ false → Does h S w b w'
  Does-stop b d e f = record {
    depth = d.depth;
    saves = d.saves;
    time = d.time;
    status = d.status;
    batched = λ p. cc (d.batched p).0;
    play = λ t. cc;
  }

-- A step on the play before a call counts as part of it.
pub Does-from :
    {A : Type 0} {g : A → Bool} {R : A → Play → Type 0} {w : World} {p : Play} {a : A} {w' : World}
    → Does g R (set_play w p) a w'
    → Does g R w a w'
Does-from d = record {
  depth = d.depth;
  saves = d.saves;
  time = d.time;
  status = d.status;
  batched = d.batched;
  play = d.play;
}

pub Does-play :
    {A : Type 0} {g : A → Bool} {R : A → Play → Type 0} (w : World) (p : Play) (a : A)
    → g a ≡ true
    → R a p
    → Does g R w a (set_play w p)
Does-play w p a t r = record {
  depth = refl;
  saves = refl;
  time = refl;
  status = inl refl;
  batched = λ _. (t, refl);
  play = λ _. r;
}

pub Does-weaken :
    {A : Type 0} {g : A → Bool} {R S : A → Play → Type 0} {w : World} {a : A} {w' : World}
    → ((p : Play) → R a p → S a p)
    → Does g R w a w'
    → Does g S w a w'
Does-weaken f d = record {
  depth = d.depth;
  saves = d.saves;
  time = d.time;
  status = d.status;
  batched = d.batched;
  play = λ t. f _ (d.play t);
}

module _ {A B : Type 0} {g : A → Bool} {h : B → Bool} {R : A → Play → Type 0}
    {S : B → Play → Type 0} where
  -- A call and what follows it. After one that an output ended the rest gives up at once.
  pub >>=-Doing :
      (m : M A) (f : A → M B) (w : World)
      → Doing g R m w
      → ((a : A) (w' : World) → g a ≡ true → R a w'.play → Doing h S (f a) w')
      → ((a : A) (w' : World) → g a ≡ false → (b : B) × (f a w' ≡ some (b, w')) × (h b ≡ false))
      → Doing h S (m >>= f) w
  >>=-Doing m f w d next stop = >>=-Ensures m f w d λ a w' e. elim (Bool-cases (g a)) [
    | inl t ↦ Ensures-mono (λ b v s. Does-then e s) (next a w' t (e.play t))
    | inr t ↦ let x = stop a w' t in rw x.1 (returns (Does-stop x.0 e t x.2))
  ]

module _ {R S : Bool → Play → Type 0} where
  pub ⟫-Doing :
      (m k : M Bool) (w : World)
      → Doing ran R m w
      → ((w' : World) → R true w'.play → Doing ran S k w')
      → Doing ran S (m ⟫ k) w
  ⟫-Doing m k w d next =
      ⟫-Ensures m k w d (λ w' e. Ensures-mono (λ b v s. Does-then e s) (next w' (e.play refl)))
        (λ w' e. Does-stop false e refl refl)

-- A loop that takes the play through `F first`, `F (first + 1)` and so on.
pub for_range-Doing :
    (F : ℕ → Play) (body : ℕ → M Bool) (first last : ℕ)
    → ((j : ℕ) (w : World)
        → first ≤ j
        → j < last
        → w.play ≡ F j
        → Doing ran (λ _ p. p ≡ F (j + 1)) (body j) w)
    → (n i : ℕ) (w : World) → i + n ≡ last
    → first ≤ i
    → w.play ≡ F i
    → Doing ran (λ _ p. p ≡ F last) (for_range n i body) w
unfolding for_range
for_range-Doing F body first last each zero i w e lo start =
    let e' : i ≡ last = omega arith in returns (Does-play w w.play true refl (rw (← e') start))
for_range-Doing F body first last each (suc n) i w e lo start =
    ⟫-Doing (body i) (for_range n (i + 1) body) w (each i w lo (omega arith) start)
      λ w' at. for_range-Doing F body first last each n (i + 1) w' (omega arith) (omega arith) at

-- A loop that keeps an invariant as long as it runs.
pub for_range-Keeping :
    (I : ℕ → Play → Type 0) (body : ℕ → M Bool) (last : ℕ)
    → ((j : ℕ) (w : World) → j < last → I j w.play → Doing ran (λ _ p. I (j + 1) p) (body j) w)
    → (n i : ℕ) (w : World) → i + n ≡ last
    → I i w.play
    → Doing ran (λ _ p. I last p) (for_range n i body) w
unfolding for_range
for_range-Keeping I body last each zero i w e h =
    let e' : i ≡ last = omega arith in returns (Does-play w w.play true refl (rw (← e') h))
for_range-Keeping I body last each (suc n) i w e h =
    ⟫-Doing (body i) (for_range n (i + 1) body) w (each i w (omega arith) h)
      λ w' at. for_range-Keeping I body last each n (i + 1) w' (omega arith) at

-- A loop with no output: it always runs to its end.
abbrev pub Sure : (Play → Type 0) → World → Bool → World → Type 0
Sure R w b w' = (b ≡ true) × Does ran (λ _ p. R p) w b w'

pub for_range-Sure :
    (I : ℕ → Play → Type 0) (body : ℕ → M Bool) (last : ℕ)
    → ((j : ℕ) (w : World) → j < last → I j w.play → Ensures (Sure (I (j + 1)) w) (body j w))
    → (n i : ℕ) (w : World) → i + n ≡ last
    → I i w.play
    → Ensures (Sure (I last) w) (for_range n i body w)
unfolding for_range
for_range-Sure I body last each zero i w e h =
    let e' : i ≡ last = omega arith in returns (refl, Does-play w w.play true refl (rw (← e') h))
for_range-Sure I body last each (suc n) i w e h =
    ⟫-Ensures (body i) (for_range n (i + 1) body) w (each i w (omega arith) h)
      (λ w' s.
        Ensures-mono (λ b v t. (t.0, Does-then s.1 t.1))
          (for_range-Sure I body last each n (i + 1) w' (omega arith) (s.1.play refl)))
      (λ w' s. cc s.0)
