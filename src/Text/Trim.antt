-- ===== src/Text/Trim.antt =====
-- What trimming takes away.
use rustproxmoxmcp.Prelude.{
  ℕ, ◌≡◌, refl, Bool, true, not, [], ◌∷◌, arith, all, is_empty, Bool-cases, inl, inr, if◌then◌else◌,
  and-eq-true,
}
use rustproxmoxmcp.Text.{Text, is_whitespace, trim, trim_start, trim_end}

-- A test that white space passes holds of a text if it holds of the trimmed text.
module _ (p : ℕ → Bool) (white : (c : ℕ) → is_whitespace c ≡ true → p c ≡ true) where
  all-trim_start : (s : Text) → all p (trim_start s) ≡ true → all p s ≡ true
  unfolding trim_start
  all-trim_start [] h = refl
  all-trim_start (c ∷ s) h = elim (Bool-cases (is_whitespace c)) [
    | inl w ↦ rw (white c w) (all-trim_start s (rw w at h))
    | inr w ↦ rw w at h
  ]

  all-rest :
      (c : ℕ) (rest : Text)
      → all p (if is_empty rest then [] else c ∷ rest) ≡ true
      → all p rest ≡ true
  all-rest c [] h = refl
  all-rest c (d ∷ rest) h = (and-eq-true (p c) (all p (d ∷ rest)) h).1

  all-trim_end : (s : Text) → all p (trim_end s) ≡ true → all p s ≡ true
  unfolding trim_end
  all-trim_end [] h = refl
  all-trim_end (c ∷ s) h = elim (Bool-cases (is_whitespace c)) [
    | inl w ↦ rw (white c w) (all-trim_end s (all-rest c (trim_end s) (rw w at h)))
    | inr w ↦
        let (q, r) = and-eq-true (p c) (all p (trim_end s)) (rw w at h) in rw q (all-trim_end s r)
  ]

  pub all-trim : (s : Text) → all p (trim s) ≡ true → all p s ≡ true
  unfolding trim
  all-trim s h = all-trim_start s (all-trim_end (trim_start s) h)

trim_end-trim_end : (s : Text) → trim_end (trim_end s) ≡ trim_end s
unfolding trim_end
trim_end-trim_end [] = refl
trim_end-trim_end (c ∷ s) = ground (arith, trim_end-trim_end s)

-- No white space at the front.
starts_bare : Text → Bool
starts_bare [] = true
starts_bare (c ∷ s) = not (is_whitespace c)

trim_start-starts_bare : (s : Text) → starts_bare (trim_start s) ≡ true
unfolding trim_start starts_bare
trim_start-starts_bare [] = refl
trim_start-starts_bare (c ∷ s) = ground (arith, trim_start-starts_bare s)

trim_end-starts_bare : (s : Text) → starts_bare s ≡ true → starts_bare (trim_end s) ≡ true
unfolding trim_end starts_bare
trim_end-starts_bare [] h = refl
trim_end-starts_bare (c ∷ s) h = ground arith

trim_start_bare : (s : Text) → starts_bare s ≡ true → trim_start s ≡ s
unfolding trim_start starts_bare
trim_start_bare [] h = refl
trim_start_bare (c ∷ s) h = ground arith

-- Trimming twice is trimming once.
pub trim-trim : (s : Text) → trim (trim s) ≡ trim s
unfolding trim
trim-trim s =
    rw
      (trim_start_bare (trim_end (trim_start s))
        (trim_end-starts_bare (trim_start s) (trim_start-starts_bare s)))
      (trim_end-trim_end (trim_start s))

-- What holds of every character still holds after trimming.
module _ (p : ℕ → Bool) where
  trim_start-all : (s : Text) → all p s ≡ true → all p (trim_start s) ≡ true
  unfolding trim_start
  trim_start-all [] h = refl
  trim_start-all (c ∷ s) h = ground (arith, trim_start-all s)

  trim_end-all : (s : Text) → all p s ≡ true → all p (trim_end s) ≡ true
  unfolding trim_end
  trim_end-all [] h = refl
  trim_end-all (c ∷ s) h = ground (arith, trim_end-all s)

  pub trim-all : (s : Text) → all p s ≡ true → all p (trim s) ≡ true
  unfolding trim
  trim-all s h = trim_end-all (trim_start s) (trim_start-all s h)
