-- ===== src/Prelude/Outcome.antt =====
-- Rust's `Result`, with `?` as the bind of a `do` block.
use mathlib.Core.Path.{◌≡◌, refl, ap}
use mathlib.Core.Bool.{Bool, true, false}
use mathlib.Core.Option.{Option, none, some}
use mathlib.Core.Logic.{◌⊎◌, inl, inr}

pub data Result {ℓ κ} (A : Type ℓ) (E : Type κ) : Type (ℓ ⊔ κ) where
  ok : A → Result A E
  err : E → Result A E

module _ {ℓ κ μ} {A : Type ℓ} {B : Type κ} {E : Type μ} where
  infixl 5 ◌>>◌ ◌>>=◌
  abbrev pub ◌>>=◌ : Result A E → (A → Result B E) → Result B E
  err problem >>= next = err problem
  ok value >>= next = next value

  abbrev pub ◌>>◌ : Result A E → Result B E → Result B E
  first >> second = first >>= λ _. second

  -- Inversion of a bind that succeeded.
  pub >>=-eq-ok :
      (r : Result A E) (next : A → Result B E) {b : B}
      → (r >>= next) ≡ ok b
      → (a : A) × (r ≡ ok a) × (next a ≡ ok b)
  >>=-eq-ok (err problem) next done = absurd (cc)
  >>=-eq-ok (ok value) next done = (value, refl, done)

module _ {ℓ μ} {A : Type ℓ} {E : Type μ} where
  -- `Option::ok_or`
  abbrev pub ok_or : Option A → E → Result A E
  ok_or none e = err e
  ok_or (some a) e = ok a

  abbrev pub is_ok : Result A E → Bool
  is_ok (ok a) = true
  is_ok (err e) = false

module _ {ℓ κ} {A : Type ℓ} {E : Type κ} where
  pub ok-injective : {a b : A} → ◌≡◌ {A = Result A E} (ok a) (ok b) → a ≡ b
  ok-injective h = cc

module _ {ℓ κ μ} {A : Type ℓ} {E : Type κ} {F : Type μ} where
  abbrev pub map_err : (E → F) → Result A E → Result A F
  map_err f (ok a) = ok a
  map_err f (err e) = err (f e)

  pub map_err-eq-ok : (f : E → F) (m : Result A E) {a : A} → map_err f m ≡ ok a → m ≡ ok a
  map_err-eq-ok f (ok b) h = ap (λ b. ok b) (ok-injective h)
  map_err-eq-ok f (err e) h = absurd (cc)

module _ {μ} {E : Type μ} where
  -- `if refused { return Err(e) }`
  abbrev pub refuse_if : Bool → E → Result (Unit {0}) E
  refuse_if true e = err e
  refuse_if false e = ok tt

  pub refuse_if-eq-ok : (b : Bool) (e : E) {u : Unit {0}} → refuse_if b e ≡ ok u → b ≡ false
  refuse_if-eq-ok true e h = absurd (cc)
  refuse_if-eq-ok false e h = refl

module _ {ℓ κ} {A : Type ℓ} {E : Type κ} where
  pub Result-cases : (r : Result A E) → ((a : A) × (r ≡ ok a)) ⊎ ((e : E) × (r ≡ err e))
  Result-cases (ok a) = inl (a, refl)
  Result-cases (err e) = inr (e, refl)
