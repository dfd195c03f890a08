-- ===== src/CreateConfig.antt =====
-- crates/rust-proxmoxmcp/src/server/mod.rs: which config a create passes on. A config is the list of
-- its entries, in the order of the keys.
pub mod Values
pub mod Volumes
pub mod Forms
pub mod Safe
use rustproxmoxmcp.Prelude.{
  ℕ, zero, suc, Bool, true, false, not, ◌&&◌, ◌||◌, Option, none, some, List, [], ◌∷◌, map, any,
  all, keep, find, length, is_empty, if◌then◌else◌, eqb, Result, ok, err, is_ok,
}
use rustproxmoxmcp.Text.{
  Text, codes, ◌==◌, contains, is_digit, starts_with, strip_prefix, split, split_once, trim,
  to_ascii_lowercase,
}
use rustproxmoxmcp.Volume.{validate_volid_kind}
use rustproxmoxmcp.VmConfig.{VmConfig, is_index, has_host_path, config_host_paths}

unfoldable pub allowed_create_config_keys : List Text
allowed_create_config_keys =
    codes "ciuser"
    ∷ codes "sshkeys"
    ∷ codes "nameserver"
    ∷ codes "searchdomain"
    ∷ codes "citype"
    ∷ codes "ciupgrade"
    ∷ codes "cores"
    ∷ codes "sockets"
    ∷ codes "memory"
    ∷ codes "balloon"
    ∷ codes "cpu"
    ∷ codes "numa"
    ∷ codes "swap"
    ∷ codes "name"
    ∷ codes "hostname"
    ∷ codes "description"
    ∷ codes "tags"
    ∷ codes "onboot"
    ∷ codes "startup"
    ∷ codes "agent"
    ∷ codes "ostype"
    ∷ codes "arch"
    ∷ codes "bios"
    ∷ codes "scsihw"
    ∷ codes "boot"
    ∷ codes "machine"
    ∷ codes "vga"
    ∷ codes "features"
    ∷ codes "unprivileged"
    ∷ codes "ostemplate"
    ∷ codes "storage"
    ∷ codes "ssh-public-keys"
    ∷ []

unfoldable pub allowed_create_config_prefixes : List Text
allowed_create_config_prefixes = codes "ipconfig" ∷ codes "net" ∷ []

unfoldable pub create_disk_key_prefixes : List Text
create_disk_key_prefixes = codes "scsi" ∷ codes "ide" ∷ codes "sata" ∷ codes "virtio" ∷ []

unfoldable pub create_disk_key_exact : List Text
create_disk_key_exact = codes "rootfs" ∷ codes "efidisk0" ∷ codes "tpmstate0" ∷ []

unfoldable pub is_create_disk_key : Text → Bool
is_create_disk_key lower =
    contains create_disk_key_exact lower
    || any (λ prefix. is_index (strip_prefix lower prefix)) create_disk_key_prefixes

unfoldable pub is_allowed_create_config_key : Text → Bool
is_allowed_create_config_key key =
    contains allowed_create_config_keys (to_ascii_lowercase key)
    || (any (λ prefix. starts_with (to_ascii_lowercase key) prefix) allowed_create_config_prefixes
        || is_create_disk_key (to_ascii_lowercase key))

-- What stands behind the first occurrence of a text: `rest.find(prefix)`, and the slice behind it.
unfoldable pub behind : Text → Text → Option Text
behind prefix [] = strip_prefix [] prefix
behind prefix (c ∷ s) =
    let later = behind prefix s in
    elim (strip_prefix (c ∷ s) prefix) [ some rest ↦ some rest | none ↦ later ]

-- `s.trim_start_matches(|c: char| c.is_ascii_digit())`
unfoldable pub without_digits : Text → Text
without_digits [] = []
without_digits (c ∷ s) = let rest = without_digits s in if is_digit c then rest else c ∷ s

-- At least one digit, and then a dash.
unfoldable pub names_number : Text → Bool
unfolding without_digits
names_number after =
    not (eqb (length (without_digits after)) (length after))
    && starts_with (without_digits after) (codes "-")

-- The loop over the occurrences of a prefix, on fuel.
unfoldable pub scan : ℕ → Text → Text → Bool
unfolding behind names_number
scan zero prefix rest = false
scan (suc fuel) prefix rest = elim (behind prefix rest) [
  | none ↦ false
  | some after ↦ let tail = scan fuel prefix after in if names_number after then true else tail
]

unfoldable pub contains_volume_reference : Text → Bool
unfolding scan
contains_volume_reference value =
    any (λ prefix. scan (suc (length value)) prefix value) (codes "vm-" ∷ codes "base-" ∷ [])

-- `field.split_once('=').map_or(field, |(key, _)| key).trim().to_ascii_lowercase()`
unfoldable pub option_key : Text → Text
option_key field =
    to_ascii_lowercase
      (trim (elim (split_once b'=' field) [ none ↦ field | some (key, value) ↦ key ]))

unfoldable pub names_source : Text → Bool
unfolding option_key
names_source field = option_key field == codes "import-from" || option_key field == codes "file"

-- `b.is_ascii_digit() || b == b'.'`
unfoldable pub is_size : Text → Bool
is_size size = not (is_empty size) && all (λ b. is_digit b || eqb b b'.') size

-- The fields behind the storage: a size, and options that name no source.
unfoldable pub allocates : List Text → Bool
unfolding is_size names_source
allocates [] = false
allocates (size ∷ fields) = is_size size && not (any names_source fields)

unfoldable pub disk_value_is_new_allocation : Text → Bool
unfolding allocates contains_volume_reference
disk_value_is_new_allocation value = elim (split_once b':' value) [
  | none ↦ false
  | some (storage, rest) ↦ allocates (split b',' rest) && not (contains_volume_reference value)
]

abbrev pub is_cloudinit : Option (Text × Text) → Bool
is_cloudinit none = false
is_cloudinit (some (storage, rest)) = not (is_empty storage) && rest == codes "cloudinit"

abbrev pub is_iso : Option (Text × Text) → Bool
is_iso none = false
is_iso (some (volid, rest)) =
    rest == codes "media=cdrom" && is_ok (validate_volid_kind volid (codes "iso"))

unfoldable pub disk_value_is_allowed_media : Text → Bool
disk_value_is_allowed_media value =
    value == codes "none,media=cdrom"
    || (is_cloudinit (split_once b':' value) || is_iso (split_once b',' value))

-- `reject_unsafe_config`: a refusal is the constructor of its cause.
pub data ConfigRefusal : Type 0 where
  unknown_keys host_paths foreign_volumes : List Text → ConfigRefusal
  privileged : ConfigRefusal
  bad_template : Text → ConfigRefusal

abbrev pub keys_of : VmConfig → List Text
keys_of config = map (λ (entry : Text × Text). entry.0) config

unfoldable pub is_unknown : Text × Text → Bool
is_unknown (key, value) = not (is_allowed_create_config_key key)

unfoldable pub is_foreign : Text × Text → Bool
is_foreign (key, value) =
    is_create_disk_key (to_ascii_lowercase key)
    && (not (disk_value_is_new_allocation value) && not (disk_value_is_allowed_media value))

-- `config.get(name)`, when there is one and its value is not as it should be
unfoldable pub bad_value : Text → (Text → Bool) → VmConfig → Option Text
bad_value name is_good config = elim (find (λ (entry : Text × Text). entry.0 == name) config) [
  | none ↦ none
  | some (key, value) ↦ if is_good value then none else some value
]

abbrev pub is_unprivileged : Text → Bool
is_unprivileged value = trim value == codes "1"

abbrev pub is_template : Text → Bool
is_template value = is_ok (validate_volid_kind value (codes "vztmpl"))

unfoldable pub reject_unsafe_config : VmConfig → Result (Unit {0}) ConfigRefusal
unfolding is_unknown is_foreign bad_value
reject_unsafe_config config =
    if not (is_empty (keep is_unknown config))
    then err (unknown_keys (keys_of (keep is_unknown config)))
    else elim (bad_value (codes "unprivileged") is_unprivileged config) [
      | some value ↦ err privileged
      | none ↦ elim (bad_value (codes "ostemplate") is_template config) [
        | some value ↦ err (bad_template value)
        | none ↦
            if not (is_empty (config_host_paths config))
            then err (host_paths (config_host_paths config))
            else if not (is_empty (keep is_foreign config))
            then err (foreign_volumes (keys_of (keep is_foreign config)))
            else ok tt
      ]
    ]
