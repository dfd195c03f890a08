-- ===== src/Text/Equality.antt =====
-- Equality of texts, and membership in a list of names.
use mathlib.Core.Path.{ap₂}
use rustproxmoxmcp.Prelude.{
  ◌≡◌, ◌↔◌, refl, inl, inr, true, List, [], ◌∷◌, arith, eqb, eqb_iff, and-eq-true, Has, here, there,
  Bool-cases,
}
use rustproxmoxmcp.Text.{Text, ◌==◌, contains}

pub eq_refl : (s : Text) → (s == s) ≡ true
unfolding ◌==◌
eq_refl [] = refl
eq_refl (c ∷ s) = ground (arith, eq_refl s)

pub eq_of_test : (s t : Text) → (s == t) ≡ true → s ≡ t
unfolding ◌==◌
eq_of_test [] [] h = refl
eq_of_test [] (d ∷ t) h = cc
eq_of_test (c ∷ s) [] h = cc
eq_of_test (c ∷ s) (d ∷ t) h =
    let (p, q) = and-eq-true (eqb c d) (s == t) h in
    ap₂ (λ x y. x ∷ y) ((eqb_iff c d).0 p) (eq_of_test s t q)

pub eq_iff : (s t : Text) → ((s == t) ≡ true) ↔ (s ≡ t)
eq_iff s t = (eq_of_test s t, λ e. rw e (eq_refl t))

pub contains-of-Has : {x : Text} {xs : List Text} → Has x xs → contains xs x ≡ true
unfolding contains
contains-of-Has {x} here = rw (eq_refl x)
contains-of-Has (there m) = ground (arith, contains-of-Has m)

pub Has-of-contains : (xs : List Text) (x : Text) → contains xs x ≡ true → Has x xs
unfolding contains
Has-of-contains [] x h = absurd (cc)
Has-of-contains (y ∷ xs) x h = elim (Bool-cases (y == x)) [
  | inl e ↦ rw (eq_of_test y x e) here
  | inr e ↦ there (Has-of-contains xs x (ground arith))
]

pub contains_iff : (xs : List Text) (x : Text) → (contains xs x ≡ true) ↔ Has x xs
contains_iff xs x = (Has-of-contains xs x, contains-of-Has)
