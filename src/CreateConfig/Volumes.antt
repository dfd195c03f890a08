-- ===== src/CreateConfig/Volumes.antt =====
-- Only a value that names a volume of a guest is refused for it
-- (crates/rust-proxmoxmcp/src/server/mod.rs, `disk_value_is_new_allocation`).
use rustproxmoxmcp.Prelude.{
  ℕ, zero, suc, ◌≡◌, ◌↔◌, ◌⊎◌, refl, sym, ap, ◌∙◌, inl, inr, true, false, some, [], ◌∷◌, ◌++◌,
  arith, all, length, is_empty, eqb_iff, Bool-cases, Option-cases,
}
use rustproxmoxmcp.Text.{Text, codes, is_digit, strip_prefix}
use rustproxmoxmcp.Text.Prefix.{strip_prefix-append, starts_with_iff}
use rustproxmoxmcp.CreateConfig.{
  behind, without_digits, names_number, scan, contains_volume_reference,
}
use rustproxmoxmcp.CreateConfig.Values.{NamesVolume, contains_volume_reference_complete}

behind-append :
    (prefix s r : Text) → behind prefix s ≡ some r → (pre : Text) × (s ≡ pre ++ (prefix ++ r))
unfolding behind
behind-append prefix [] r h = ([], strip_prefix-append [] prefix r h)
behind-append prefix (c ∷ s) r h = elim (Option-cases (strip_prefix (c ∷ s) prefix)) [
  | inl e ↦
      let (pre, spelled) = behind-append prefix s r (ground (arith, e)) in
      (c ∷ pre, ap (λ (t : Text). c ∷ t) spelled)
  | inr (after, e) ↦
      let same : after ≡ r = ground (arith, e) in
      ([], rw (← same) (strip_prefix-append (c ∷ s) prefix after e))
]

without_digits-split :
    (s : Text) → (digits : Text) × (s ≡ digits ++ without_digits s) × (all is_digit digits ≡ true)
unfolding without_digits
without_digits-split [] = ([], refl, refl)
without_digits-split (c ∷ s) = elim (Bool-cases (is_digit c)) [
  | inr e ↦ ([], ground (arith, e), refl)
  | inl e ↦
      let (digits, spelled, numeric) = without_digits-split s in
      let here : without_digits (c ∷ s) ≡ without_digits s = ground (arith, e) in
      (c ∷ digits, ap (λ (t : Text). c ∷ t) spelled ∙ rw here refl, ground (arith, e, numeric))
]

names_number_sound :
    (after : Text)
    → names_number after ≡ true
    → (digits : Text) × (rest : Text) × (after ≡ digits ++ (b'-' ∷ rest))
      × (is_empty digits ≡ false)
      × (all is_digit digits ≡ true)
unfolding names_number
names_number_sound after h =
    let (digits, spelled, numeric) = without_digits-split after in
    let (rest, dash) = (starts_with_iff (without_digits after) (codes "-")).0 (ground arith) in
    (
      digits,
      rest,
      spelled ∙ ap (λ (t : Text). digits ++ t) dash,
      elim (Bool-cases (is_empty digits)) [
        | inr e ↦ e
        | inl e ↦ absurd (no_digits digits spelled e)
      ],
      numeric,
    )
  where
    no_digits :
        (digits : Text) → after ≡ digits ++ without_digits after → is_empty digits ≡ true → ⊥
    no_digits [] spelled e =
        let sizes = ap (λ (t : Text). length t) (sym spelled) in
        absurd (ground (arith, h, (eqb_iff (length (without_digits after)) (length after)).1 sizes))
    no_digits (d ∷ ds) spelled e = absurd (cc)

scan_sound :
    (fuel : ℕ) (prefix s : Text)
    → scan fuel prefix s ≡ true
    → (pre : Text) × (after : Text) × (s ≡ pre ++ (prefix ++ after)) × (names_number after ≡ true)
unfolding scan
scan_sound zero prefix s h = absurd (cc)
scan_sound (suc fuel) prefix s h = elim (Option-cases (behind prefix s)) [
  | inl e ↦ absurd (ground (arith, e, h))
  | inr (after, e) ↦
      let (pre, spelled) = behind-append prefix s after e in
      elim (Bool-cases (names_number after)) [
        | inl named ↦ (pre, after, spelled, named)
        | inr e1 ↦
            let (pre', after', rest, named) =
              scan_sound fuel prefix after (ground (arith, e, e1, h)) in
            (
              pre ++ (prefix ++ pre'),
              after',
              spelled
                  ∙ ap (λ (t : Text). pre ++ (prefix ++ t)) rest
                  ∙ regroup pre prefix pre' (prefix ++ after'),
              named,
            )
      ]
]
  where
    assoc : (a b c : Text) → a ++ (b ++ c) ≡ (a ++ b) ++ c
    assoc [] b c = refl
    assoc (x ∷ a) b c = ap (λ (t : Text). x ∷ t) (assoc a b c)

    regroup : (a b c d : Text) → a ++ (b ++ (c ++ d)) ≡ (a ++ (b ++ c)) ++ d
    regroup a b c d = ap (λ (t : Text). a ++ t) (assoc b c d) ∙ assoc a (b ++ c) d

scan-NamesVolume :
    (fuel : ℕ) (prefix value : Text)
    → (prefix ≡ codes "vm-") ⊎ (prefix ≡ codes "base-")
    → scan fuel prefix value ≡ true
    → NamesVolume value
scan-NamesVolume fuel prefix value marked h =
    let (pre, after, spelled, named) = scan_sound fuel prefix value h in
    let (digits, rest, cut, given, numeric) = names_number_sound after named in
    record {
      pre = pre;
      prefix = prefix;
      digits = digits;
      rest = rest;
      spelled = spelled ∙ ap (λ (t : Text). pre ++ (prefix ++ t)) cut;
      marked = marked;
      given = given;
      numeric = numeric;
    }

-- A value is said to refer to a volume exactly if it names one.
pub contains_volume_reference_iff :
    (value : Text) → (contains_volume_reference value ≡ true) ↔ NamesVolume value
unfolding contains_volume_reference
contains_volume_reference_iff value = (
  λ h. elim (Bool-cases (scan (suc (length value)) (codes "vm-") value)) [
    | inl e ↦ scan-NamesVolume (suc (length value)) (codes "vm-") value (inl refl) e
    | inr e ↦
        scan-NamesVolume (suc (length value)) (codes "base-") value (inr refl)
          (ground (arith, e, h))
  ],
  contains_volume_reference_complete value,
)
