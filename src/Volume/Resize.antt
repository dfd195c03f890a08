-- ===== src/Volume/Resize.antt =====
-- Which size arguments grow a disk (crates/rust-proxmoxmcp-core/src/guests.rs).
use rustproxmoxmcp.Prelude.{
  ℕ, ◌≡◌, ◌⊎◌, refl, inl, inr, true, false, not, ◌&&◌, none, some, [], ◌∷◌, ◌++◌, arith, eqb, all,
  is_empty, Bool-cases, Option-cases, Has, Has-of-any, and-eq-true, ap, if◌then◌else◌,
}
use rustproxmoxmcp.Text.{Text, codes, is_digit, last, without_last, split_once, strip_prefix, trim}
use rustproxmoxmcp.Text.Pieces.{split_once_sound}
use rustproxmoxmcp.Volume.{
  is_unit, size_digits, is_number, is_decimal, names_a_positive_amount, resize_shrinks,
}

abbrev IsNumber : Text → Type 0
IsNumber part = (is_empty part ≡ false) × (all is_digit part ≡ true)

-- A fraction with its point, or nothing.
abbrev IsFraction : Text → Type 0
IsFraction tail = (tail ≡ []) ⊎ ((fraction : Text) × (tail ≡ b'.' ∷ fraction) × IsNumber fraction)

-- A unit, or nothing.
abbrev IsUnitOrNone : Text → Type 0
IsUnitOrNone tail = (tail ≡ []) ⊎ ((unit : ℕ) × (tail ≡ unit ∷ []) × (is_unit unit ≡ true))

-- A whole number, with a fraction or not, with a unit or not, that has a digit which is not zero.
pub record IsAmount (value : Text) : Type 0 where
  pub whole : Text
  pub fraction : Text
  pub unit : Text
  pub spelled : value ≡ (whole ++ fraction) ++ unit
  pub whole_number : IsNumber whole
  pub fraction_number : IsFraction fraction
  pub unit_known : IsUnitOrNone unit
  pub digit : ℕ
  pub digit_there : Has digit (whole ++ fraction)
  pub digit_positive : (is_digit digit && not (eqb digit b'0')) ≡ true

without_last-append : (s : Text) (c : ℕ) → last s ≡ some c → s ≡ without_last s ++ c ∷ []
unfolding last without_last
without_last-append [] c h = absurd (cc)
without_last-append (d ∷ []) c h = ground arith
without_last-append (d ∷ e ∷ s) c h = ap (λ t. d ∷ t) (without_last-append (e ∷ s) c h)

append_nil : (s : Text) → s ++ [] ≡ s
append_nil [] = refl
append_nil (c ∷ s) = ap (λ t. c ∷ t) (append_nil s)

size_digits-none : (value : Text) → last value ≡ none → size_digits value ≡ value
unfolding size_digits
size_digits-none value e = ground (arith, e)

size_digits-some :
    (value : Text) (c : ℕ)
    → last value ≡ some c
    → size_digits value ≡ (if is_unit c then without_last value else value)
unfolding size_digits
size_digits-some value c e = ground (arith, e)

size_digits_sound :
    (value : Text) → (unit : Text) × (value ≡ size_digits value ++ unit) × IsUnitOrNone unit
size_digits_sound value = elim (Option-cases (last value)) [
  | inl e ↦ ([], rw (size_digits-none value e, append_nil) refl, inl refl)
  | inr (c, e) ↦ elim (Bool-cases (is_unit c)) [
    | inl u ↦ (
      c ∷ [],
      rw (size_digits-some value c e, u) (without_last-append value c e),
      inr (c, refl, u),
    )
    | inr u ↦ ([], rw (size_digits-some value c e, u, append_nil) refl, inl refl)
  ]
]

IsNumber-of-test : (part : Text) → is_number part ≡ true → IsNumber part
IsNumber-of-test part h = (ground arith, ground arith)

is_decimal_sound :
    (digits : Text)
    → is_decimal digits ≡ true
    → (whole : Text) × (fraction : Text) × (digits ≡ whole ++ fraction)
      × IsNumber whole
      × IsFraction fraction
unfolding is_decimal
is_decimal_sound digits h = elim (Option-cases (split_once b'.' digits)) [
  | inl e ↦
      (digits, [], rw append_nil refl, IsNumber-of-test digits (rw (e, is_decimal) at h), inl refl)
  | inr ((whole, fraction), e) ↦
      let (a, b) = and-eq-true (is_number whole) (is_number fraction) (rw (e, is_decimal) at h) in
      let (spelled, ends) = split_once_sound b'.' digits whole fraction e in
      (
        whole,
        b'.' ∷ fraction,
        spelled,
        IsNumber-of-test whole a,
        inr (fraction, refl, IsNumber-of-test fraction b),
      )
]

names_a_positive_amount-IsAmount :
    (value : Text) → names_a_positive_amount value ≡ true → IsAmount value
unfolding names_a_positive_amount
names_a_positive_amount-IsAmount value h =
    let (decimal, positive) = and-eq-true _ _ h in
    let (unit, spelled, known) = size_digits_sound value in
    let (whole, fraction, digits, number, tail) = is_decimal_sound (size_digits value) decimal in
    let (digit, there_is, nonzero) = Has-of-any _ (size_digits value) positive in
    record {
      whole = whole;
      fraction = fraction;
      unit = unit;
      spelled = rw (← digits) spelled;
      whole_number = number;
      fraction_number = tail;
      unit_known = known;
      digit = digit;
      digit_there = rw (← digits) there_is;
      digit_positive = nonzero;
    }

strip_plus : (s delta : Text) → strip_prefix s (codes "+") ≡ some delta → s ≡ b'+' ∷ delta
unfolding strip_prefix
strip_plus [] delta h = absurd (cc)
strip_plus (c ∷ s) delta h = ground arith

-- A size that is not taken for a shrink is, with the whitespace around it cut off, a plus sign and
-- a positive amount: a whole number with a fraction or not and with a unit or not, and with a digit
-- that is not zero.
pub resize_shrinks-IsAmount :
    (size : Text)
    → resize_shrinks size ≡ false
    → (delta : Text) × (trim size ≡ b'+' ∷ delta) × IsAmount delta
unfolding resize_shrinks
resize_shrinks-IsAmount size h = elim (Option-cases (strip_prefix (trim size) (codes "+"))) [
  | inl e ↦ absurd (ground (arith, e))
  | inr (delta, e) ↦ (
    delta,
    strip_plus (trim size) delta e,
    names_a_positive_amount-IsAmount delta (ground (arith, e)),
  )
]
