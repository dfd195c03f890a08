-- ===== src/Selector/Laws.antt =====
-- The documented form of each selector term, and what parsing makes of it.
use rustproxmoxmcp.Prelude.{
  ℕ, ◌≤◌, ◌≡◌, refl, true, [], ◌∷◌, ◌++◌, arith, Bool-cases, Option-cases, inl, inr, Result, ok,
  ◌>>=◌, ok_or, all,
}
use rustproxmoxmcp.Text.{Text, codes, ◌==◌, split_once, is_digit}
use rustproxmoxmcp.Text.Pieces.{lacks, split_once_at, split_once-none}
use rustproxmoxmcp.Text.Number.{
  u32_max, decimal, decimal-all, parse_u32, parse_u32-decimal, parse_u32-le,
}
use rustproxmoxmcp.Selector.{
  qemu, lxc, path_segment, Selector, any_guest, vmid, vmid_range, tag, pool, node, type,
  SelectorError, bad_vmid, parse, parse_term, parse_vmid_term, vmid_range_term, parse_type_term,
}

-- The term that stands for a selector in a grant.
pub show : Selector → Text
show any_guest = codes "*"
show (vmid n) = codes "vmid:" ++ decimal n
show (vmid_range low high) = codes "vmid:" ++ (decimal low ++ b'-' ∷ decimal high)
show (tag t) = codes "tag:" ++ t
show (pool p) = codes "pool:" ++ p
show (node n) = codes "node:" ++ n
show (type k) = codes "type:" ++ path_segment k

-- The numbers fit 32 bits, and a range is not inverted.
abbrev pub IsValid : Selector → Type 0
IsValid (vmid n) = n ≤ u32_max
IsValid (vmid_range low high) = (low ≤ high) × (high ≤ u32_max)
IsValid _ = Unit

digit-lacks : (s : Text) → all is_digit s ≡ true → lacks b'-' s ≡ true
digit-lacks [] h = refl
digit-lacks (c ∷ s) h = ground (arith, digit-lacks s)

range_term-IsValid :
    (value low_text high_text : Text) (s : Selector)
    → vmid_range_term value (low_text, high_text) ≡ ok s
    → IsValid s
unfolding vmid_range_term
range_term-IsValid value low_text high_text (vmid_range low high) h =
    ground (arith, parse_u32-le low_text low, parse_u32-le high_text high)
range_term-IsValid value low_text high_text s h = ground arith

vmid_term-IsValid : (value : Text) (s : Selector) → parse_vmid_term value ≡ ok s → IsValid s
unfolding parse_vmid_term
vmid_term-IsValid value s h = elim (Option-cases (split_once b'-' value)) [
  | inl e ↦ single value s (rw (e, parse_vmid_term) at h)
  | inr (bounds, e) ↦ range_term-IsValid value bounds.0 bounds.1 s (rw (e, parse_vmid_term) at h)
]
  where
    single :
        (value : Text) (s : Selector)
        → (ok_or (parse_u32 value) (bad_vmid value) >>= λ n. ok (vmid n)) ≡ ok s
        → IsValid s
    single value (vmid n) h = ground (arith, parse_u32-le value n)
    single value s h = ground arith

parse_term-IsValid :
    (prefix value : Text) (s : Selector) → parse_term (prefix, value) ≡ ok s → IsValid s
unfolding parse_term parse_type_term
parse_term-IsValid prefix value (vmid n) h = ground (arith, vmid_term-IsValid value (vmid n))
parse_term-IsValid prefix value (vmid_range low high) h =
    ground (arith, vmid_term-IsValid value (vmid_range low high))
parse_term-IsValid prefix value s h = tt

-- Whatever the text, a selector that parses has numbers that fit 32 bits, and no inverted range.
pub parse-IsValid : (input : Text) (s : Selector) → parse input ≡ ok s → IsValid s
unfolding parse
parse-IsValid input s h = elim (Bool-cases (input == codes "*")) [
  | inl e ↦ rw (← any_of_ok s (rw (e, parse) at h)) tt
  | inr e ↦ elim (Option-cases (split_once b':' input)) [
    | inl cut ↦ absurd (cc (rw (e, cut, parse) at h))
    | inr (term, cut) ↦ parse_term-IsValid term.0 term.1 s (rw (e, cut, parse) at h)
  ]
]
  where
    any_of_ok :
        (s : Selector)
        → ◌≡◌ {A = Result Selector SelectorError} (ok any_guest) (ok s)
        → any_guest ≡ s
    any_of_ok s h = cc

parse-vmid : (value : Text) → parse (codes "vmid:" ++ value) ≡ parse_vmid_term value
unfolding parse split_once ◌==◌
parse-vmid value = refl

parse_vmid_term-decimal : (n : ℕ) → n ≤ u32_max → parse_vmid_term (decimal n) ≡ ok (vmid n)
unfolding parse_vmid_term
parse_vmid_term-decimal n h =
    rw
      (
        split_once-none b'-' (decimal n) (digit-lacks (decimal n) (decimal-all n)),
        parse_vmid_term,
        parse_u32-decimal n h,
      )
      refl

parse_vmid_term-range :
    (low high : ℕ)
    → low ≤ high
    → high ≤ u32_max
    → parse_vmid_term (decimal low ++ b'-' ∷ decimal high) ≡ ok (vmid_range low high)
unfolding parse_vmid_term vmid_range_term
parse_vmid_term-range low high h k =
    rw
      (
        split_once_at b'-' (decimal low) (decimal high)
            (digit-lacks (decimal low) (decimal-all low)),
        parse_vmid_term,
        parse_u32-decimal low (omega arith),
        parse_u32-decimal high k,
      )
      (ground arith)

-- Every selector whose numbers fit 32 bits, and whose range, if it is one, is not inverted, parses back
-- from its documented term.
pub parse-show : (s : Selector) → IsValid s → parse (show s) ≡ ok s
unfolding show
parse-show any_guest v = unfold parse ◌==◌ in refl
parse-show (vmid n) v = rw (parse-vmid, parse_vmid_term-decimal n v)
parse-show (vmid_range low high) v = rw (parse-vmid, parse_vmid_term-range low high v.0 v.1)
parse-show (tag t) v = unfold parse split_once ◌==◌ in refl
parse-show (pool p) v = unfold parse split_once ◌==◌ in refl
parse-show (node n) v = unfold parse split_once ◌==◌ in refl
parse-show (type qemu) v = unfold parse parse_type_term split_once ◌==◌ path_segment in refl
parse-show (type lxc) v = unfold parse parse_type_term split_once ◌==◌ path_segment in refl
