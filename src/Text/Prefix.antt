-- ===== src/Text/Prefix.antt =====
-- What the tests on the front of a text say of it.
use rustproxmoxmcp.Prelude.{
  ℕ, ◌≡◌, ◌↔◌, refl, inl, inr, true, none, some, [], ◌∷◌, ◌++◌, arith, eqb, eqb_iff, Bool-cases,
  Option-cases,
}
use rustproxmoxmcp.Text.{Text, starts_with, strip_prefix, split_once}
use rustproxmoxmcp.Text.Pieces.{lacks, split_once_at, split_once_sound}

pub strip_prefix-append : (s prefix r : Text) → strip_prefix s prefix ≡ some r → s ≡ prefix ++ r
unfolding strip_prefix
strip_prefix-append s [] r h = cc
strip_prefix-append [] (p ∷ ps) r h = absurd (cc)
strip_prefix-append (c ∷ s) (p ∷ ps) r h = elim (Bool-cases (eqb c p)) [
  | inl e ↦
      let same : c ≡ p = (eqb_iff c p).0 e in
      let rest = strip_prefix-append s ps r (ground (arith, e)) in rw (same, rest) refl
  | inr e ↦ absurd (ground (arith, e))
]

pub strip_prefix_at : (prefix r : Text) → strip_prefix (prefix ++ r) prefix ≡ some r
unfolding strip_prefix
strip_prefix_at [] r = refl
strip_prefix_at (p ∷ ps) r = rw ((eqb_iff p p).1 refl) (strip_prefix_at ps r)

starts_with-append :
    (s prefix : Text) → starts_with s prefix ≡ true → (r : Text) × (s ≡ prefix ++ r)
unfolding starts_with
starts_with-append s [] h = (s, refl)
starts_with-append [] (p ∷ ps) h = absurd (cc)
starts_with-append (c ∷ s) (p ∷ ps) h = elim (Bool-cases (eqb c p)) [
  | inl e ↦
      let same : c ≡ p = (eqb_iff c p).0 e in
      let (r, rest) = starts_with-append s ps (ground (arith, e)) in (r, rw (same, rest) refl)
  | inr e ↦ absurd (ground (arith, e))
]

starts_with_at : (prefix r : Text) → starts_with (prefix ++ r) prefix ≡ true
unfolding starts_with
starts_with_at [] r = refl
starts_with_at (p ∷ ps) r = rw ((eqb_iff p p).1 refl) (starts_with_at ps r)

-- A text starts with a prefix exactly if something follows the prefix in it.
pub starts_with_iff :
    (s prefix : Text) → (starts_with s prefix ≡ true) ↔ ((r : Text) × (s ≡ prefix ++ r))
starts_with_iff s prefix = (starts_with-append s prefix, λ (r, e). rw e (starts_with_at prefix r))

pub split_once-lacks : (sep : ℕ) (s : Text) → split_once sep s ≡ none → lacks sep s ≡ true
unfolding split_once
split_once-lacks sep [] h = refl
split_once-lacks sep (c ∷ s) h = elim (Option-cases (split_once sep s)) [
  | inl e ↦ ground (arith, h, split_once-lacks sep s e)
  | inr (cut, e) ↦ absurd (ground (arith, h, e))
]

-- A text is cut in two exactly if it is the two pieces around the first separator.
pub split_once_iff :
    (sep : ℕ) (s a b : Text)
    → (split_once sep s ≡ some (a, b)) ↔ ((s ≡ a ++ sep ∷ b) × (lacks sep a ≡ true))
split_once_iff sep s a b =
    (split_once_sound sep s a b, λ (spelled, ends). rw spelled (split_once_at sep a b ends))
