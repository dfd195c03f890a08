-- ===== src/VmConfig.antt =====
-- crates/rust-proxmoxmcp/src/server/mod.rs: which config `update_vm_config` passes on. A config is the
-- list of its entries, in the order of the keys.
pub mod Forms
pub mod Laws
use mathlib.Core.Option
use rustproxmoxmcp.Prelude.{
  ℕ, Bool, true, false, not, ◌&&◌, ◌||◌, Option, none, some, List, [], ◌∷◌, ◌++◌, map, any, all,
  keep, find, is_empty, if◌then◌else◌, eqb,
}
use rustproxmoxmcp.Text.{
  Text, codes, contains, is_digit, starts_with, strip_prefix, split, split_once, trim, join,
  to_ascii_lowercase, eq_ignore_ascii_case,
}

abbrev pub VmConfig : Type 0
VmConfig = List (Text × Text)

unfoldable pub allowed_vm_config_keys : List Text
allowed_vm_config_keys =
    codes "ciuser"
    ∷ codes "sshkeys"
    ∷ codes "nameserver"
    ∷ codes "searchdomain"
    ∷ codes "citype"
    ∷ codes "ciupgrade"
    ∷ codes "cores"
    ∷ codes "sockets"
    ∷ codes "memory"
    ∷ codes "balloon"
    ∷ codes "cpu"
    ∷ codes "numa"
    ∷ codes "name"
    ∷ codes "description"
    ∷ codes "tags"
    ∷ codes "onboot"
    ∷ codes "startup"
    ∷ codes "agent"
    ∷ []

unfoldable pub allowed_vm_config_prefixes : List Text
allowed_vm_config_prefixes = codes "ipconfig" ∷ []

-- `!rest.is_empty() && rest.bytes().all(|b| b.is_ascii_digit())`
abbrev pub is_index : Option Text → Bool
is_index none = false
is_index (some rest) = not (is_empty rest) && all is_digit rest

unfoldable pub is_allowed_vm_config_key : Text → Bool
is_allowed_vm_config_key key =
    contains allowed_vm_config_keys (to_ascii_lowercase key)
    || any (λ prefix. is_index (strip_prefix (to_ascii_lowercase key) prefix))
        allowed_vm_config_prefixes

-- `field.split_once('=').map_or(field, |(_, v)| v)`
unfoldable pub field_value : Text → Text
field_value field = elim (split_once b'=' field) [ none ↦ field | some (name, value) ↦ value ]

unfoldable pub has_host_path : Text × Text → Bool
has_host_path (key, value) =
    any (λ field. starts_with (field_value field) (codes "/")) (split b',' value)

unfoldable pub config_host_paths : VmConfig → List Text
config_host_paths config = map (λ (entry : Text × Text). entry.0) (keep has_host_path config)

unfoldable pub is_password : Text × Text → Bool
is_password (key, value) = eq_ignore_ascii_case key (codes "cipassword")

unfoldable pub is_net : Text → Bool
is_net key = starts_with (to_ascii_lowercase key) (codes "net")

unfoldable pub is_disallowed : Text × Text → Bool
is_disallowed (key, value) = not (is_net key) && not (is_allowed_vm_config_key key)

unfoldable pub firewall_on : Text → Bool
firewall_on value =
    any (λ field. eq_ignore_ascii_case (trim field) (codes "firewall=1")) (split b',' value)

unfoldable pub is_unguarded : Text × Text → Bool
is_unguarded (key, value) = is_net key && not (firewall_on value)

-- The first of the refusals: an early `return Some(…)`.
abbrev pub or_else : Option Text → Option Text → Option Text
or_else none b = b
or_else (some a) b = some a

-- `keys().find(…)` and then the refusal that names the key
abbrev pub refuse_first : (Text × Text → Bool) → (Text → Text) → VmConfig → Option Text
refuse_first p message config =
    Option.map (λ (entry : Text × Text). message entry.0) (find p config)

-- The refusal that names every key that passes the test
abbrev pub refuse_all : (Text × Text → Bool) → (List Text → Text) → VmConfig → Option Text
refuse_all p message config =
    let found = keep p config in
    if is_empty found then none else some (message (map (λ (entry : Text × Text). entry.0) found))

abbrev pub password_message : Text → Text
password_message key =
    codes "config field '"
    ++ (key
        ++ codes
            "' is refused: a cloud-init password would be stored in plaintext in the change-set record until it is pruned. Use 'sshkeys' for cloud-init authentication instead.")

abbrev pub disallowed_message : List Text → Text
disallowed_message keys =
    codes "config field(s) "
    ++ (join (codes ", ") keys
        ++ codes
            " are refused: a config update accepts only cloud-init, sizing and metadata keys, plus 'netN' with its firewall left on. Disk, media, device passthrough, 'delete'/'revert', host-run scripts, boot-media and protection changes are outside this tool's mandate. Set them from the Proxmox UI if you genuinely need them.")

abbrev pub unguarded_message : Text → Text
unguarded_message key =
    codes "config field '"
    ++ (key
        ++ codes
            "' must explicitly set 'firewall=1'. A config update must not leave the guest's per-interface firewall unset or disabled -- Proxmox defaults an interface with no 'firewall=' field to off. Change it from the Proxmox UI if a disabled firewall is intended.")

abbrev pub host_path_message : List Text → Text
host_path_message keys =
    codes "config field(s) "
    ++ (join (codes ", ") keys
        ++ codes
            " carry an absolute host path. A guest disk is named 'storage:spec'; a path names the hypervisor's own filesystem, which a config update must not reach.")

unfoldable pub refuse_host_paths : VmConfig → Option Text
refuse_host_paths config =
    if is_empty (config_host_paths config)
    then none
    else some (host_path_message (config_host_paths config))

unfoldable pub reject_unsafe_vm_config : VmConfig → Option Text
reject_unsafe_vm_config config = or_else (refuse_first is_password password_message config) (
    or_else (refuse_all is_disallowed disallowed_message config)
      (or_else (refuse_first is_unguarded unguarded_message config) (refuse_host_paths config)))
