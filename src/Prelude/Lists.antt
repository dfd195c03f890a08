-- ===== src/Prelude/Lists.antt =====
-- Lists measured by native numbers, with the Boolean searches that iterators of the source make.
use Prim.Native.Nat.{ℕ, zero, suc, ◌+◌, ◌-◌, min}
use mathlib.Core.Path.{◌≡◌, refl, ap}
use mathlib.Core.Logic.{◌⊎◌, inl, inr}
use mathlib.Core.Bool.{Bool, true, false, ◌&&◌, ◌||◌}
use mathlib.Core.List.{List, [], ◌∷◌, ◌++◌}
use mathlib.Core.Option.{Option, none, some}
use native.Mathlib.Omega.{arith}
use rustproxmoxmcp.Prelude.Tests.{if◌then◌else◌, Bool-cases}

module _ {ℓ} {A : Type ℓ} where
  abbrev pub length : List A → ℕ
  length [] = 0
  length (x ∷ xs) = suc (length xs)

  abbrev pub take : ℕ → List A → List A
  take zero xs = []
  take (suc n) [] = []
  take (suc n) (x ∷ xs) = x ∷ take n xs

  abbrev pub drop : ℕ → List A → List A
  drop zero xs = xs
  drop (suc n) [] = []
  drop (suc n) (x ∷ xs) = drop n xs

  abbrev pub get_elem? : List A → ℕ → Option A
  get_elem? [] i = none
  get_elem? (x ∷ xs) zero = some x
  get_elem? (x ∷ xs) (suc i) = get_elem? xs i

  -- `iter().any(p)`
  abbrev pub any : (A → Bool) → List A → Bool
  any p [] = false
  any p (x ∷ xs) = p x || any p xs

  -- `iter().all(p)`
  abbrev pub all : (A → Bool) → List A → Bool
  all p [] = true
  all p (x ∷ xs) = p x && all p xs

  -- `iter().filter(p)`
  abbrev pub keep : (A → Bool) → List A → List A
  keep p [] = []
  keep p (x ∷ xs) = let rest = keep p xs in if p x then x ∷ rest else rest

  -- `iter().find(p)`
  abbrev pub find : (A → Bool) → List A → Option A
  find p [] = none
  find p (x ∷ xs) = let rest = find p xs in if p x then some x else rest

  abbrev pub is_empty : List A → Bool
  is_empty [] = true
  is_empty (x ∷ xs) = false

  -- `x` stands in the list, with its place.
  pub data Has (x : A) : List A → Type ℓ where
    here : {xs : List A} → Has x (x ∷ xs)
    there : {y : A} {xs : List A} → Has x xs → Has x (y ∷ xs)

module _ {ℓ} {A : Type ℓ} where
  pub length-append : (xs ys : List A) → length (xs ++ ys) ≡ length xs + length ys
  length-append [] ys = omega arith
  length-append (x ∷ xs) ys = omega (arith, length-append xs ys)

  pub length-take : (n : ℕ) (xs : List A) → length (take n xs) ≡ min n (length xs)
  length-take zero xs = omega arith
  length-take (suc n) [] = omega arith
  length-take (suc n) (x ∷ xs) = omega (arith, length-take n xs)

  pub length-drop : (n : ℕ) (xs : List A) → length (drop n xs) ≡ length xs - n
  length-drop zero xs = omega arith
  length-drop (suc n) [] = omega arith
  length-drop (suc n) (x ∷ xs) = omega (arith, length-drop n xs)

  pub take-append-drop : (n : ℕ) (xs : List A) → take n xs ++ drop n xs ≡ xs
  take-append-drop zero xs = refl
  take-append-drop (suc n) [] = refl
  take-append-drop (suc n) (x ∷ xs) = ap (λ t. x ∷ t) (take-append-drop n xs)

  pub any-of-Has : (p : A → Bool) {x : A} {xs : List A} → Has x xs → p x ≡ true → any p xs ≡ true
  any-of-Has p here h = ground arith
  any-of-Has p (there m) h = ground (arith, any-of-Has p m h)

  pub Has-of-any :
      (p : A → Bool) (xs : List A) → any p xs ≡ true → (x : A) × Has x xs × (p x ≡ true)
  Has-of-any p [] h = absurd (ground arith)
  Has-of-any p (x ∷ xs) h = elim (Bool-cases (p x)) [
    | inl e ↦ (x, here, e)
    | inr e ↦ let (y, m, q) = Has-of-any p xs (ground arith) in (y, there m, q)
  ]

  pub all-at : (p : A → Bool) {x : A} {xs : List A} → Has x xs → all p xs ≡ true → p x ≡ true
  all-at p (here {xs}) h = ground arith
  all-at p (there {y} {xs} m) h = all-at p m (ground arith)

  pub any-append : (p : A → Bool) (xs ys : List A) → any p (xs ++ ys) ≡ (any p xs || any p ys)
  any-append p [] ys = refl
  any-append p (x ∷ xs) ys = ground (arith, any-append p xs ys)

  -- A found element stands in the list and passes the test.
  pub Has-of-find :
      (p : A → Bool) (xs : List A) {x : A} → find p xs ≡ some x → Has x xs × (p x ≡ true)
  Has-of-find p [] h = absurd (cc)
  Has-of-find p (y ∷ xs) {x} h = elim (Bool-cases (p y)) [
    | inl e ↦ let same : y ≡ x = ground arith in rw (← same) (here, e)
    | inr e ↦ let (m, q) = Has-of-find p xs (ground arith) in (there m, q)
  ]

  pub find-of-Has :
      (p : A → Bool) {x : A} {xs : List A} → Has x xs → p x ≡ true → (y : A) × (find p xs ≡ some y)
  find-of-Has p {x} here h = (x, rw h)
  find-of-Has p {x} (there {y} {xs} m) h = elim (Bool-cases (p y)) [
    | inl e ↦ (y, rw e)
    | inr e ↦ let (z, f) = find-of-Has p m h in (z, rw (e, f))
  ]

  -- What `filter` keeps: the elements that pass the test.
  pub Has-keep : (p : A → Bool) {x : A} {xs : List A} → Has x xs → p x ≡ true → Has x (keep p xs)
  Has-keep p here h = rw h here
  Has-keep p (there {y} m) h = elim (Bool-cases (p y)) [
    | inl e ↦ rw e (there (Has-keep p m h))
    | inr e ↦ rw e (Has-keep p m h)
  ]

  pub Has-cons : {x y : A} {xs : List A} → Has x (y ∷ xs) → (x ≡ y) ⊎ Has x xs
  Has-cons here = inl refl
  Has-cons (there m) = inr m

  pub Has-of-keep :
      (p : A → Bool) {x : A} (xs : List A) → Has x (keep p xs) → Has x xs × (p x ≡ true)
  Has-of-keep p [] m = elim m [ ]
  Has-of-keep p {x} (y ∷ xs) m = elim (Bool-cases (p y)) [
    | inl e ↦ elim (Has-cons (rw e at m)) [
      | inl same ↦ rw same (here, e)
      | inr n ↦ let (k, h) = Has-of-keep p xs n in (there k, h)
    ]
    | inr e ↦ let (n, h) = Has-of-keep p xs (rw e at m) in (there n, h)
  ]

  pub Has-append : {x : A} (xs ys : List A) → Has x (xs ++ ys) → Has x xs ⊎ Has x ys
  Has-append [] ys m = inr m
  Has-append (y ∷ xs) ys m = elim (Has-cons m) [
    | inl e ↦ inl (rw e here)
    | inr n ↦ elim (Has-append xs ys n) [ inl k ↦ inl (there k) | inr k ↦ inr k ]
  ]

  pub Has-append_left : {x : A} {xs : List A} (ys : List A) → Has x xs → Has x (xs ++ ys)
  Has-append_left ys here = here
  Has-append_left ys (there m) = there (Has-append_left ys m)

  pub Has-append_right : {x : A} (xs : List A) {ys : List A} → Has x ys → Has x (xs ++ ys)
  Has-append_right [] m = m
  Has-append_right (y ∷ xs) m = there (Has-append_right xs m)

  pub none_found : (p : A → Bool) {x : A} (xs : List A) → find p xs ≡ none → Has x xs → p x ≡ false
  none_found p [] h m = elim m [ ]
  none_found p {x} (y ∷ xs) h m = elim (Bool-cases (p y)) [
    | inl e ↦ absurd (ground (arith, e))
    | inr e ↦ elim (Has-cons m) [
      | inl same ↦ rw same e
      | inr n ↦ none_found p xs (ground (arith, e)) n
    ]
  ]

  pub find-none :
      (p : A → Bool) (xs : List A) → ((x : A) → Has x xs → p x ≡ false) → find p xs ≡ none
  find-none p [] h = refl
  find-none p (x ∷ xs) h = rw (h x here) (find-none p xs (λ y m. h y (there m)))

  pub none_kept :
      (p : A → Bool) {x : A} (xs : List A) → is_empty (keep p xs) ≡ true → Has x xs → p x ≡ false
  none_kept p [] h m = elim m [ ]
  none_kept p {x} (y ∷ xs) h m = elim (Bool-cases (p y)) [
    | inl e ↦ absurd (ground (arith, e))
    | inr e ↦ elim (Has-cons m) [
      | inl same ↦ rw same e
      | inr n ↦ none_kept p xs (ground (arith, e)) n
    ]
  ]

  pub keep_none :
      (p : A → Bool) (xs : List A)
      → ((x : A) → Has x xs → p x ≡ false)
      → is_empty (keep p xs) ≡ true
  keep_none p [] h = refl
  keep_none p (x ∷ xs) h = rw (h x here) (keep_none p xs (λ y m. h y (there m)))
