-- ===== src/Text/Pieces.antt =====
-- Cutting a text at a separator and joining it again.
use mathlib.Core.Option
use rustproxmoxmcp.Prelude.{
  ℕ, ◌≡◌, refl, ap, inl, inr, Bool, true, not, Option, none, some, List, [], ◌∷◌, ◌++◌, arith, eqb,
  eqb_iff, all, Bool-cases, Has, here, there, Has-cons, ◌⊎◌,
}
use rustproxmoxmcp.Text.{Text, split_once, split, onto_first}

-- The separator does not occur.
abbrev pub lacks : ℕ → Text → Bool
lacks sep = all (λ c. not (eqb c sep))

pub split_once_at :
    (sep : ℕ) (a b : Text) → lacks sep a ≡ true → split_once sep (a ++ sep ∷ b) ≡ some (a, b)
unfolding split_once
split_once_at sep [] b h = ground arith
split_once_at sep (c ∷ a) b h = ground (arith, split_once_at sep a b)

pub split_once-none : (sep : ℕ) (s : Text) → lacks sep s ≡ true → split_once sep s ≡ none
unfolding split_once
split_once-none sep [] h = refl
split_once-none sep (c ∷ s) h = ground (arith, split_once-none sep s)

same_cut :
    {a b a' b' : Text}
    → ◌≡◌ {A = Option (Text × Text)} (some (a, b)) (some (a', b'))
    → (a ≡ a') × (b ≡ b')
same_cut h = ground arith

-- What `split_once` gives back spells the text, and it cuts at the first separator.
pub split_once_sound :
    (sep : ℕ) (s a b : Text)
    → split_once sep s ≡ some (a, b)
    → (s ≡ a ++ sep ∷ b) × (lacks sep a ≡ true)
unfolding split_once
split_once_sound sep [] a b h = absurd (cc)
split_once_sound sep (c ∷ s) a b h = elim (Bool-cases (eqb c sep)) [
  | inl e ↦
      let (p, q) = same_cut (rw (e, split_once) at h) in
      rw (← p, ← q, (eqb_iff c sep).0 e) (refl, refl)
  | inr e ↦
      let ((x, y), cut, same) = (Option.map-eq-some_iff _ _).0 (rw (e, split_once) at h) in
      let (p, q) = split_once_sound sep s x y cut in
      let l = ap (λ (t : Text × Text). t.0) same in
      let r = ap (λ (t : Text × Text). t.1) same in rw (← l, ← r) (ap (λ t. c ∷ t) p, ground arith)
]

Has-onto_first :
    {p : Text} (c : ℕ) (ps : List Text)
    → Has p (onto_first c ps)
    → ((q : Text) × (p ≡ c ∷ q) × ((q ≡ []) ⊎ Has q ps)) ⊎ Has p ps
Has-onto_first c [] m = elim (Has-cons m) [ inl e ↦ inl ([], e, inl refl) | inr n ↦ inr n ]
Has-onto_first c (q ∷ ps) m = elim (Has-cons m) [
  | inl e ↦ inl (q, e, inr here)
  | inr n ↦ inr (there n)
]

-- No piece of a split holds the separator.
pub split-lacks : (sep : ℕ) (s : Text) {p : Text} → Has p (split sep s) → lacks sep p ≡ true
unfolding split
split-lacks sep [] m = elim (Has-cons m) [ inl e ↦ rw e | inr n ↦ elim n [ ] ]
split-lacks sep (c ∷ s) m = elim (Bool-cases (eqb c sep)) [
  | inl e ↦ elim (Has-cons (rw e at m)) [ inl same ↦ rw same | inr n ↦ split-lacks sep s n ]
  | inr e ↦ elim (Has-onto_first c (split sep s) (rw e at m)) [
    | inl (q, same, inl nothing) ↦ rw (same, nothing, e)
    | inl (q, same, inr n) ↦ rw (same, e) (split-lacks sep s n)
    | inr n ↦ split-lacks sep s n
  ]
]
