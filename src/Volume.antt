-- ===== src/Volume.antt =====
-- crates/rust-proxmoxmcp-core/src/guests.rs: what a path segment, a volume id and a size argument may
-- be before a request is built from them.
pub mod Laws
pub mod Resize
use rustproxmoxmcp.Prelude.{
  ℕ, Bool, true, false, not, ◌&&◌, ◌||◌, Option, none, some, [], ◌∷◌, ◌++◌, eqb, any, all, is_empty,
  Result, ok, err, ◌>>=◌, ◌>>◌, ok_or, map_err, refuse_if,
}
use rustproxmoxmcp.Text.{
  Text, codes, ◌==◌, has_substring, is_control, is_digit, split_once, strip_prefix, trim, last,
  without_last,
}
use rustproxmoxmcp.Error.{ProxmoxError, malformed}

-- `mecmcp_openapi::expand_path` on the template of one segment
module _ (expand_segment : Text → Result Text Text) where
  unfoldable pub validate_path_segment : Text → Text → Result (Unit {0}) ProxmoxError
  validate_path_segment value field =
      map_err (λ error. malformed (field ++ (codes " is not a usable path segment: " ++ error)))
        (expand_segment value)
      >> ok tt

-- The checks on the whole volume id.
unfoldable pub check_structure : Text → Result (Unit {0}) ProxmoxError
check_structure volid = do
  refuse_if (is_empty volid) (malformed (codes "volid is empty"))
  refuse_if (has_substring volid (codes ".."))
      (malformed (codes "volid contains '..', which cannot name a Proxmox volume"))
  refuse_if (any is_control volid) (malformed (codes "volid contains a control character"))

-- The checks on what stands after the storage.
unfoldable pub check_kind : Text → Text → Result (Unit {0}) ProxmoxError
check_kind kind_and_name expected_kind = do
  (kind, name) ←
      ok_or (split_once b'/' kind_and_name)
        (malformed (codes "volid does not contain '/' separating kind from name"))
  refuse_if (is_empty name) (malformed (codes "volid names no volume after its content kind"))
  refuse_if (not (kind == expected_kind)) (
      malformed (
        codes "volid has content kind '"
        ++ (kind ++ (codes "' but operation expects '" ++ (expected_kind ++ codes "'")))))

unfoldable pub validate_volid_kind : Text → Text → Result (Unit {0}) ProxmoxError
unfolding check_structure check_kind
validate_volid_kind volid expected_kind = do
  check_structure volid
  (storage, kind_and_name) ←
      ok_or (split_once b':' volid) (malformed (codes "volid is not in storage:kind/name form"))
  refuse_if (is_empty storage) (malformed (codes "volid has an empty storage prefix"))
  check_kind kind_and_name expected_kind

unfoldable pub validate_volid_for_operation : Text → Text → Text → Result (Unit {0}) ProxmoxError
unfolding check_structure check_kind
validate_volid_for_operation volid storage expected_kind = do
  check_structure volid
  (volid_storage, kind_and_name) ←
      ok_or (split_once b':' volid) (malformed (codes "volid is not in storage:kind/name form"))
  refuse_if (is_empty volid_storage) (malformed (codes "volid has an empty storage prefix"))
  refuse_if (not (volid_storage == storage)) (
      malformed (
        codes "volid storage prefix '"
        ++ (volid_storage
            ++ (codes "' does not match storage parameter '" ++ (storage ++ codes "'")))))
  check_kind kind_and_name expected_kind

-- `matches!(unit, 'K' | 'M' | …)`
abbrev pub is_unit : ℕ → Bool
is_unit c =
    eqb c b'K'
    || eqb c b'M'
    || eqb c b'G'
    || eqb c b'T'
    || eqb c b'k'
    || eqb c b'm'
    || eqb c b'g'
    || eqb c b't'

-- The digits of a size: the text without its unit, where it ends in one.
unfoldable pub size_digits : Text → Text
size_digits value = elim (last value) [
  | none ↦ value
  | some unit ↦ elim (is_unit unit) [ true ↦ without_last value | false ↦ value ]
]

abbrev pub is_number : Text → Bool
is_number part = not (is_empty part) && all is_digit part

-- Whether the digits are a whole number, or one with a fraction.
unfoldable pub is_decimal : Text → Bool
is_decimal digits = elim (split_once b'.' digits) [
  | none ↦ is_number digits
  | some (whole, fraction) ↦ is_number whole && is_number fraction
]

unfoldable pub names_a_positive_amount : Text → Bool
unfolding size_digits is_decimal
names_a_positive_amount value =
    is_decimal (size_digits value) && any (λ c. is_digit c && not (eqb c b'0')) (size_digits value)

unfoldable pub resize_shrinks : Text → Bool
unfolding names_a_positive_amount
resize_shrinks size = elim (strip_prefix (trim size) (codes "+")) [
  | none ↦ true
  | some delta ↦ not (names_a_positive_amount delta)
]
