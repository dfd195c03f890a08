-- ===== src/Text/Number.antt =====
-- `str::parse::<u32>` and the decimal form of a number, which are inverse to one another.
use rustproxmoxmcp.Prelude.{
  ℕ, zero, suc, ◌+◌, ◌-◌, ◌*◌, ◌/◌, ◌%◌, ◌^◌, ◌≤◌, ◌<◌, ◌≡◌, refl, inl, inr, Bool, true, ◌&&◌,
  Option, none, some, [], ◌∷◌, ◌++◌, arith, eqb, leb, ltb, all, Bool-cases, if◌then◌else◌,
}
use mathlib.Core.List.{append_assoc, append-nil}
use rustproxmoxmcp.Text.{Text, codes, is_digit}

abbrev pub u32_max : ℕ
u32_max = 2 ^ 32 - 1

-- The digits behind the sign: an error on a character that is no digit, and on overflow.
unfoldable pub digits_value : Text → ℕ → Option ℕ
digits_value [] n = some n
digits_value (c ∷ s) n =
    let m = n * 10 + (c - b'0') in
    let rest = digits_value s m in if is_digit c && leb m u32_max then rest else none

unfoldable pub digits_only : Text → Option ℕ
unfolding digits_value
digits_only [] = none
digits_only (c ∷ s) = digits_value (c ∷ s) 0

-- `s.parse::<u32>().ok()`
unfoldable pub parse_u32 : Text → Option ℕ
unfolding digits_only
parse_u32 [] = none
parse_u32 (c ∷ s) = if eqb c b'+' then digits_only s else digits_only (c ∷ s)

digits_of : ℕ → ℕ → Text
digits_of zero n = []
digits_of (suc f) n =
    let front = digits_of f (n / 10) in
    if ltb n 10 then (b'0' + n) ∷ [] else front ++ (b'0' + n % 10) ∷ []

-- `n.to_string()`
unfoldable pub decimal : ℕ → Text
unfolding digits_of
decimal n = digits_of (suc n) n

parse_tests :
    (parse_u32 (codes "4294967295") ≡ some 4294967295)
    × (parse_u32 (codes "4294967296") ≡ none)
    × (parse_u32 (codes "+7") ≡ some 7)
    × (parse_u32 (codes "-7") ≡ none)
    × (parse_u32 (codes "+") ≡ none)
    × (decimal 907 ≡ codes "907")
unfolding parse_u32 decimal
parse_tests = (refl, refl, refl, refl, refl, refl)

digits_value_of :
    (f n : ℕ) (s : Text)
    → n < f
    → n ≤ u32_max
    → digits_value (digits_of f n ++ s) 0 ≡ digits_value s n
unfolding digits_value digits_of
digits_value_of zero n s h k = elim h [ ]
digits_value_of (suc f) n s h k = elim (Bool-cases (ltb n 10)) [
  | inl e ↦ rw e (ground arith)
  | inr e ↦
      rw (e, append_assoc, digits_value_of f (n / 10) _ (ground arith) (ground arith))
        (ground arith)
]

all-append : (p : ℕ → Bool) (s t : Text) → all p s ≡ true → all p t ≡ true → all p (s ++ t) ≡ true
all-append p [] t h k = k
all-append p (c ∷ s) t h k = ground (arith, all-append p s t)

digits_of-all : (f n : ℕ) → all is_digit (digits_of f n) ≡ true
unfolding digits_of
digits_of-all zero n = refl
digits_of-all (suc f) n = elim (Bool-cases (ltb n 10)) [
  | inl e ↦ rw e (ground arith)
  | inr e ↦
      rw e (all-append is_digit (digits_of f (n / 10)) _ (digits_of-all f (n / 10)) (ground arith))
]

-- The decimal form has only digits.
pub decimal-all : (n : ℕ) → all is_digit (decimal n) ≡ true
unfolding decimal
decimal-all n = digits_of-all (suc n) n

digits_of-cons : (f n : ℕ) → n < f → (c : ℕ) × (s : Text) × (digits_of f n ≡ c ∷ s)
unfolding digits_of
digits_of-cons zero n h = elim h [ ]
digits_of-cons (suc f) n h = elim (Bool-cases (ltb n 10)) [
  | inl e ↦ (b'0' + n, [], rw e)
  | inr e ↦
      let (c, s, q) = digits_of-cons f (n / 10) (ground arith) in
      (c, s ++ (b'0' + n % 10) ∷ [], rw (e, q))
]

parse_u32-of-digits :
    (c n : ℕ) (s : Text)
    → all is_digit (c ∷ s) ≡ true
    → digits_value (c ∷ s) 0 ≡ some n
    → parse_u32 (c ∷ s) ≡ some n
unfolding parse_u32
parse_u32-of-digits c n s d v = ground arith

-- Printing a 32-bit number and parsing the text gives the number back.
pub parse_u32-decimal : (n : ℕ) → n ≤ u32_max → parse_u32 (decimal n) ≡ some n
unfolding decimal digits_value
parse_u32-decimal n h =
    let (c, s, q) = digits_of-cons (suc n) n (omega arith) in
    let value = digits_value_of (suc n) n [] (omega arith) h in
    rw q
      (parse_u32-of-digits c n s (rw q at (digits_of-all (suc n) n)) (rw (append-nil, q) at value))

-- A parsed number fits 32 bits.
digits_value-le : (s : Text) (n m : ℕ) → n ≤ u32_max → digits_value s n ≡ some m → m ≤ u32_max
unfolding digits_value
digits_value-le [] n m k h = ground arith
digits_value-le (c ∷ s) n m k h = ground (arith, digits_value-le s (n * 10 + (c - b'0')) m)

pub parse_u32-le : (s : Text) (m : ℕ) → parse_u32 s ≡ some m → m ≤ u32_max
unfolding parse_u32 digits_value
parse_u32-le [] m h = absurd (cc)
parse_u32-le (c ∷ []) m h = ground (arith, digits_value-le (c ∷ []) 0 m)
parse_u32-le (c ∷ d ∷ s) m h =
    ground (arith, digits_value-le (c ∷ d ∷ s) 0 m, digits_value-le (d ∷ s) 0 m)
