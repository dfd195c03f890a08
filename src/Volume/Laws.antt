-- ===== src/Volume/Laws.antt =====
-- Which volume ids pass (crates/rust-proxmoxmcp-core/src/guests.rs).
use rustproxmoxmcp.Prelude.{
  ℕ, ◌≡◌, ◌↔◌, refl, inl, inr, true, false, some, [], ◌∷◌, ◌++◌, arith, any, is_empty, Option-cases,
  ok,
}
use rustproxmoxmcp.Text.{Text, codes, ◌==◌, has_substring, is_control, split_once}
use rustproxmoxmcp.Text.Equality.{eq_of_test, eq_refl}
use rustproxmoxmcp.Text.Pieces.{lacks, split_once_at, split_once_sound}
use rustproxmoxmcp.Volume.{
  check_structure, check_kind, validate_volid_kind, validate_volid_for_operation,
}

-- `storage:kind/name`, where neither the storage nor the name is empty, the storage has no colon and
-- the kind no slash, and the text has neither two dots in a row nor a control character.
pub record IsVolid (volid storage kind : Text) : Type 0 where
  pub name : Text
  pub spelled : volid ≡ storage ++ b':' ∷ (kind ++ b'/' ∷ name)
  pub storage_given : is_empty storage ≡ false
  pub storage_ends : lacks b':' storage ≡ true
  pub kind_ends : lacks b'/' kind ≡ true
  pub name_given : is_empty name ≡ false
  pub no_parent : has_substring volid (codes "..") ≡ false
  pub printable : any is_control volid ≡ false

spells-nonempty : (volid a b : Text) (c : ℕ) → volid ≡ a ++ c ∷ b → is_empty volid ≡ false
spells-nonempty volid [] b c h = rw h
spells-nonempty volid (d ∷ a) b c h = rw h

check_structure_sound :
    (volid : Text)
    → check_structure volid ≡ ok tt
    → (has_substring volid (codes "..") ≡ false) × (any is_control volid ≡ false)
unfolding check_structure
check_structure_sound volid h = ground arith

check_kind_sound :
    (rest kind : Text)
    → check_kind rest kind ≡ ok tt
    → (name : Text) × (rest ≡ kind ++ b'/' ∷ name)
      × (lacks b'/' kind ≡ true)
      × (is_empty name ≡ false)
unfolding check_kind
check_kind_sound rest kind h = elim (Option-cases (split_once b'/' rest)) [
  | inl e ↦ absurd (ground (arith, e))
  | inr ((k, name), e) ↦
      let given : is_empty name ≡ false = ground (arith, e) in
      let test : (k == kind) ≡ true = ground (arith, e, given) in
      let same = eq_of_test k kind test in
      let (spelled, ends) = split_once_sound b'/' rest k name e in
      (name, rw (← same) spelled, rw (← same) ends, given)
]

check_kind_complete :
    (kind name : Text)
    → lacks b'/' kind ≡ true
    → is_empty name ≡ false
    → check_kind (kind ++ b'/' ∷ name) kind ≡ ok tt
unfolding check_kind
check_kind_complete kind name ends given =
    rw (split_once_at b'/' kind name ends, given, eq_refl kind) refl

check_structure_complete :
    (volid : Text)
    → is_empty volid ≡ false
    → has_substring volid (codes "..") ≡ false
    → any is_control volid ≡ false
    → check_structure volid ≡ ok tt
unfolding check_structure
check_structure_complete volid a b c = rw (a, b, c) refl

made :
    {volid storage kind rest : Text}
    → check_structure volid ≡ ok tt
    → split_once b':' volid ≡ some (storage, rest)
    → is_empty storage ≡ false
    → check_kind rest kind ≡ ok tt
    → IsVolid volid storage kind
made {volid} {storage} {kind} {rest} s cut given k =
    let (dots, control) = check_structure_sound volid s in
    let (spelled, ends) = split_once_sound b':' volid storage rest cut in
    let (name, rest_spelled, kind_ends, name_given) = check_kind_sound rest kind k in
    record {
      name = name;
      spelled = rw (← rest_spelled) spelled;
      storage_given = given;
      storage_ends = ends;
      kind_ends = kind_ends;
      name_given = name_given;
      no_parent = dots;
      printable = control;
    }

module _ {volid storage kind : Text} (v : IsVolid volid storage kind) where
  structure : check_structure volid ≡ ok tt
  structure =
      check_structure_complete volid (spells-nonempty volid storage _ b':' v.spelled) v.no_parent
        v.printable

  cut_at_storage : split_once b':' volid ≡ some (storage, kind ++ b'/' ∷ v.name)
  cut_at_storage = rw v.spelled (split_once_at b':' storage _ v.storage_ends)

kind_split :
    (volid kind : Text)
    → validate_volid_kind volid kind ≡ ok tt
    → (storage : Text) × (rest : Text) × (check_structure volid ≡ ok tt)
      × (split_once b':' volid ≡ some (storage, rest))
      × (is_empty storage ≡ false)
      × (check_kind rest kind ≡ ok tt)
unfolding validate_volid_kind
kind_split volid kind h = elim (Option-cases (split_once b':' volid)) [
  | inl e ↦ absurd (ground (arith, e))
  | inr ((storage, rest), e) ↦
      (storage, rest, ground (arith, e), e, ground (arith, e), ground (arith, e))
]

operation_split :
    (volid storage kind : Text)
    → validate_volid_for_operation volid storage kind ≡ ok tt
    → (found : Text) × (rest : Text) × (check_structure volid ≡ ok tt)
      × (split_once b':' volid ≡ some (found, rest))
      × (is_empty found ≡ false)
      × ((found == storage) ≡ true)
      × (check_kind rest kind ≡ ok tt)
unfolding validate_volid_for_operation
operation_split volid storage kind h = elim (Option-cases (split_once b':' volid)) [
  | inl e ↦ absurd (ground (arith, e))
  | inr ((found, rest), e) ↦
      (found, rest, ground (arith, e), e, ground (arith, e), ground (arith, e), ground (arith, e))
]

-- A volume id passes for a kind exactly when it is `storage:kind/name` for some storage.
pub validate_volid_kind_iff :
    (volid kind : Text)
    → (validate_volid_kind volid kind ≡ ok tt) ↔ ((storage : Text) × IsVolid volid storage kind)
unfolding validate_volid_kind
validate_volid_kind_iff volid kind = (
  λ h.
      let (storage, rest, s, cut, given, k) = kind_split volid kind h in
      (storage, made s cut given k),
  λ (storage, v).
      rw (structure v, cut_at_storage v, v.storage_given)
        (check_kind_complete kind v.name v.kind_ends v.name_given),
)

-- A volume id passes for an operation on a storage exactly when it is `storage:kind/name` for that
-- very storage and the kind that the operation is for, where storage and name are not empty, the
-- storage has no colon, the kind no slash, and the whole id neither `..` nor a control character.
pub validate_volid_for_operation_iff :
    (volid storage kind : Text)
    → (validate_volid_for_operation volid storage kind ≡ ok tt) ↔ IsVolid volid storage kind
unfolding validate_volid_for_operation
validate_volid_for_operation_iff volid storage kind = (
  λ h.
      let (found, rest, s, cut, given, test, k) = operation_split volid storage kind h in
      let same = eq_of_test found storage test in made s (rw (← same) cut) (rw (← same) given) k,
  λ v.
      rw (structure v, cut_at_storage v, v.storage_given, eq_refl storage)
        (check_kind_complete kind v.name v.kind_ends v.name_given),
)
