-- ===== src/Effect.antt =====
-- The game's functions as state passing over `World`, with early returns and array bounds.
-- `none` is an access outside of an array, which C++ leaves undefined.
pub mod Does
use russia_tetris.Base.{
  ℕ, zero, suc, ◌+◌, ◌<◌, ◌≡◌, refl, Bool, true, false, Option, none, some, arith,
}
use russia_tetris.World.{World}

abbrev pub M : Type 0 → Type 0
M A = World → Option (A × World)

infixl 5 ◌>>=◌ ◌>>◌
abbrev pub ◌>>=◌ : {A B : Type 0} → M A → (A → M B) → M B
◌>>=◌ m f w = elim (m w) [ none ↦ none | some (a, w') ↦ f a w' ]

abbrev pub ◌>>◌ : {B : Type 0} → M (Unit {0}) → M B → M B
m >> k = m >>= λ _. k

abbrev pub return : {A : Type 0} → A → M A
return a w = some (a, w)

abbrev pub modify : (World → World) → M Bool
modify f w = some (true, f w)

abbrev pub pass_on : {A : Type 0} → Option A → (A → M Bool) → M Bool
pass_on o f w = elim o [ none ↦ none | some a ↦ f a w ]

-- A call of a function that returns `bool` and touches no array.
abbrev pub lift : (World → Bool × World) → M Bool
lift f w = some (f w)

-- if (!m) return false; k
infixr 6 ◌⟫◌
abbrev pub ◌⟫◌ : M Bool → M Bool → M Bool
◌⟫◌ m k w = elim (m w) [
  | none ↦ none
  | some (b, w') ↦ elim b [ true ↦ k w' | false ↦ some (false, w') ]
]

-- for (int i = first; i < first + n; i++) if (!body(i)) return false;
unfoldable pub for_range : ℕ → ℕ → (ℕ → M Bool) → M Bool
for_range zero i body = return true
for_range (suc n) i body = body i ⟫ for_range n (i + 1) body

-- The call returns, with a result and a world that satisfy `Q`.
pub data Ensures {A : Type 0} (Q : A → World → Type 0) : Option (A × World) → Type 0 where
  returns : {a : A} {w : World} → Q a w → Ensures Q (some (a, w))

pub Ensures-value :
    {A : Type 0} {Q : A → World → Type 0} {r : Option (A × World)}
    → Ensures Q r
    → (a : A) × (w : World) × (r ≡ some (a, w)) × Q a w
Ensures-value (returns {a} {w} q) = (a, w, refl, q)

pub Ensures-mono :
    {A : Type 0} {P Q : A → World → Type 0} {r : Option (A × World)}
    → ((a : A) (w : World) → P a w → Q a w)
    → Ensures P r
    → Ensures Q r
Ensures-mono f (returns {a} {w} q) = returns (f a w q)

-- The rules for the three ways to go on after a call, and for the loop.
module _ {A B : Type 0} {P : A → World → Type 0} {Q : B → World → Type 0} where
  bind_result :
      (f : A → M B) {r : Option (A × World)}
      → Ensures P r
      → ((a : A) (w : World) → P a w → Ensures Q (f a w))
      → Ensures Q (elim r [ none ↦ none | some (a, w') ↦ f a w' ])
  bind_result f (returns {a} {w} q) k = k a w q

  pub >>=-Ensures :
      (m : M A) (f : A → M B) (w : World)
      → Ensures P (m w)
      → ((a : A) (w' : World) → P a w' → Ensures Q (f a w'))
      → Ensures Q ((m >>= f) w)
  >>=-Ensures m f w h k = bind_result f h k

module _ {P Q : Bool → World → Type 0} where
  seq_result :
      (k : M Bool) {r : Option (Bool × World)}
      → Ensures P r
      → ((w : World) → P true w → Ensures Q (k w))
      → ((w : World) → P false w → Q false w)
      → Ensures Q (elim r [
        | none ↦ none
        | some (b, w') ↦ elim b [ true ↦ k w' | false ↦ some (false, w') ]
      ])
  seq_result k (returns {a = true} {w} q) go stop = go w q
  seq_result k (returns {a = false} {w} q) go stop = returns (stop w q)

  pub ⟫-Ensures :
      (m k : M Bool) (w : World)
      → Ensures P (m w)
      → ((w' : World) → P true w' → Ensures Q (k w'))
      → ((w' : World) → P false w' → Q false w')
      → Ensures Q ((m ⟫ k) w)
  ⟫-Ensures m k w h go stop = seq_result k h go stop

-- `I i` holds before round `i`; a round that fails leaves `S`.
pub for_range-Ensures :
    (I : ℕ → World → Type 0) (S : World → Type 0) (body : ℕ → M Bool) (last : ℕ)
    → ((i : ℕ) (w : World)
        → i < last
        → I i w
        → Ensures (λ b w'. (b ≡ true → I (i + 1) w') × (b ≡ false → S w')) (body i w))
    → (n i : ℕ) (w : World) → i + n ≡ last
    → I i w
    → Ensures (λ b w'. (b ≡ true → I last w') × (b ≡ false → S w')) (for_range n i body w)
unfolding for_range
for_range-Ensures I S body last keep zero i w e h =
    let e' : i ≡ last = omega arith in returns ((λ _. rw (← e') h), λ f. cc)
for_range-Ensures I S body last keep (suc n) i w e h =
    ⟫-Ensures (body i) (for_range n (i + 1) body) w (keep i w (omega arith) h)
      (λ w' q. for_range-Ensures I S body last keep n (i + 1) w' (omega arith) (q.0 refl))
      (λ w' q. ((λ f. cc), q.1))
