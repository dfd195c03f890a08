-- ===== src/CreateConfig/Values.antt =====
-- A value that names a volume of a guest, anywhere in it, is no new allocation
-- (crates/rust-proxmoxmcp/src/server/mod.rs, `disk_value_is_new_allocation`).
use rustproxmoxmcp.Prelude.{
  ℕ, zero, suc, ◌<◌, ◌≡◌, ◌⊎◌, refl, sym, ap, ◌∙◌, inl, inr, Bool, true, false, ◌||◌, none, some,
  [], ◌∷◌, ◌++◌, arith, all, length, length-append, is_empty, Bool-cases, Option-cases,
}
use rustproxmoxmcp.Text.{Text, codes, is_digit, starts_with, strip_prefix, split_once}
use rustproxmoxmcp.Text.Prefix.{strip_prefix-append}
use rustproxmoxmcp.CreateConfig.{
  behind, without_digits, names_number, scan, contains_volume_reference,
  disk_value_is_new_allocation,
}

-- The reference that the loop is compared with: every place of the text is tried.
refers : Text → Text → Bool
unfolding names_number
refers prefix [] = false
refers prefix (c ∷ s) =
    let later = refers prefix s in
    elim (strip_prefix (c ∷ s) prefix) [ none ↦ later | some after ↦ names_number after || later ]

-- A prefix that does not overlap itself, and is not empty.
record IsFree (prefix : Text) : Type 0 where
  free : (r : Text) → refers prefix (prefix ++ r) ≡ (names_number r || refers prefix r)
  full : 0 < length prefix

vm_IsFree : IsFree (codes "vm-")
unfolding refers strip_prefix
vm_IsFree = record { free = λ r. refl; full = omega arith }

base_IsFree : IsFree (codes "base-")
unfolding refers strip_prefix
base_IsFree = record { free = λ r. refl; full = omega arith }

behind-none : (prefix s : Text) → behind prefix s ≡ none → refers prefix s ≡ false
unfolding behind refers
behind-none prefix [] h = refl
behind-none prefix (c ∷ s) h = elim (Option-cases (strip_prefix (c ∷ s) prefix)) [
  | inl e ↦ let later = behind-none prefix s (ground (arith, e)) in ground (arith, e, later)
  | inr (r, e) ↦ absurd (ground (arith, e))
]

module _ (prefix : Text) (i : IsFree prefix) where
  behind-some :
      (s r : Text)
      → behind prefix s ≡ some r
      → (length r < length s)
        × (refers prefix s ≡ true → names_number r ≡ false → refers prefix r ≡ true)
  unfolding behind refers
  behind-some [] r h =
      let same = strip_prefix-append [] prefix r h in
      let sizes : length (prefix ++ r) ≡ 0 = ap (λ (t : Text). length t) (sym same) in
      absurd (omega (arith, sizes, length-append prefix r, i.full))
  behind-some (c ∷ s) r h = elim (Option-cases (strip_prefix (c ∷ s) prefix)) [
    | inl e ↦
        let (shorter, kept) = behind-some s r (ground (arith, e)) in
        (omega (arith, shorter), λ found unnamed. kept (ground (arith, e, found)) unnamed)
    | inr (after, e) ↦
        let here : after ≡ r = ground (arith, e) in
        let same = strip_prefix-append (c ∷ s) prefix after e in
        let sizes : length (c ∷ s) ≡ length (prefix ++ after) = ap (λ (t : Text). length t) same in
        (
          rw (← here) (omega (arith, sizes, length-append prefix after, i.full)),
          λ found unnamed.
              let split' : refers prefix (c ∷ s) ≡ (names_number after || refers prefix after) =
                ap (refers prefix) same ∙ i.free after in
              ground (arith, split', found, unnamed, here),
        )
  ]

  scan_complete :
      (fuel : ℕ) (s : Text) → length s < fuel → refers prefix s ≡ true → scan fuel prefix s ≡ true
  unfolding scan
  scan_complete zero s enough found = absurd (omega (arith, enough))
  scan_complete (suc fuel) s enough found = elim (Option-cases (behind prefix s)) [
    | inl e ↦ absurd (ground (arith, behind-none prefix s e, found))
    | inr (r, e) ↦
        let (shorter, kept) = behind-some s r e in
        elim (Bool-cases (names_number r)) [
          | inl named ↦ ground (arith, e, named)
          | inr unnamed ↦
              let rest =
                scan_complete fuel r (omega (arith, shorter, enough)) (kept found unnamed) in
              ground (arith, e, unnamed, rest)
        ]
  ]

  refers_there :
      (pre r : Text) → names_number r ≡ true → refers prefix (pre ++ (prefix ++ r)) ≡ true
  unfolding refers
  refers_there [] r named = i.free r ∙ ground (arith, named)
  refers_there (c ∷ pre) r named =
      let later = refers_there pre r named in
      elim (Option-cases (strip_prefix (c ∷ (pre ++ (prefix ++ r))) prefix)) [
        | inl e ↦ ground (arith, e, later)
        | inr (after, e) ↦ ground (arith, e, later)
      ]

without_digits-append :
    (digits rest : Text)
    → all is_digit digits ≡ true
    → without_digits (digits ++ (b'-' ∷ rest)) ≡ b'-' ∷ rest
unfolding without_digits
without_digits-append [] rest h = refl
without_digits-append (d ∷ ds) rest h =
    let tail = without_digits-append ds rest (ground (arith, h)) in ground (arith, h, tail)

names_number-digits :
    (digits rest : Text)
    → is_empty digits ≡ false
    → all is_digit digits ≡ true
    → names_number (digits ++ (b'-' ∷ rest)) ≡ true
unfolding names_number starts_with
names_number-digits [] rest full h = absurd (cc)
names_number-digits (d ∷ ds) rest full h =
    let tail = without_digits-append (d ∷ ds) rest h in
    let size = length-append ds (b'-' ∷ rest) in rw tail (ground (arith, size))

-- The text names a volume of a guest: `vm-` or `base-`, a number and a dash, at any place.
pub record NamesVolume (value : Text) : Type 0 where
  pub pre : Text
  pub prefix : Text
  pub digits : Text
  pub rest : Text
  pub spelled : value ≡ pre ++ (prefix ++ (digits ++ (b'-' ∷ rest)))
  pub marked : (prefix ≡ codes "vm-") ⊎ (prefix ≡ codes "base-")
  pub given : is_empty digits ≡ false
  pub numeric : all is_digit digits ≡ true

pub contains_volume_reference_complete :
    (value : Text) → NamesVolume value → contains_volume_reference value ≡ true
unfolding contains_volume_reference
contains_volume_reference_complete value n =
    let named = names_number-digits n.digits n.rest n.given n.numeric in
    let found : (i : IsFree n.prefix) → scan (suc (length value)) n.prefix value ≡ true = λ i.
      scan_complete n.prefix i (suc (length value)) value (omega arith)
        (rw n.spelled (refers_there n.prefix i n.pre (n.digits ++ (b'-' ∷ n.rest)) named)) in
    elim n.marked [
      | inl e ↦ let f = found (rw e vm_IsFree) in ground (arith, rw e at f)
      | inr e ↦ let f = found (rw e base_IsFree) in ground (arith, rw e at f)
    ]

-- A disk whose value names a volume of a guest, `vm-` or `base-` with a number and a dash, at any
-- place, is not taken for a new allocation.
pub disk_value_is_new_allocation-volume :
    (pre prefix digits rest : Text)
    → (prefix ≡ codes "vm-") ⊎ (prefix ≡ codes "base-")
    → is_empty digits ≡ false
    → all is_digit digits ≡ true
    → disk_value_is_new_allocation (pre ++ (prefix ++ (digits ++ (b'-' ∷ rest)))) ≡ false
unfolding disk_value_is_new_allocation
disk_value_is_new_allocation-volume pre prefix digits rest which full h =
    let value = pre ++ (prefix ++ (digits ++ (b'-' ∷ rest))) in
    let referred = contains_volume_reference_complete value (record {
      pre = pre;
      prefix = prefix;
      digits = digits;
      rest = rest;
      spelled = refl;
      marked = which;
      given = full;
      numeric = h;
    }) in
    elim (Option-cases (split_once b':' value)) [
      | inl e ↦ ground (arith, e)
      | inr ((storage, tail), e) ↦ ground (arith, e, referred)
    ]
