-- ===== src/VmConfig/Forms.antt =====
-- The forms of keys and values that the checks of a config look for, spelled out
-- (crates/rust-proxmoxmcp/src/server/mod.rs).
use rustproxmoxmcp.Prelude.{
  ◌≡◌, ◌↔◌, ◌⊎◌, refl, inl, inr, Bool, true, false, ◌||◌, List, [], ◌∷◌, ◌++◌, arith, any, all,
  is_empty, Bool-cases, Option-cases, Has, Has-of-any, any-of-Has,
}
use rustproxmoxmcp.Text.{
  Text, codes, contains, is_digit, split, split_once, starts_with, strip_prefix, to_ascii_lowercase,
}
use rustproxmoxmcp.Text.Equality.{contains_iff}
use rustproxmoxmcp.Text.Pieces.{lacks, split_once_at, split_once-none}
use rustproxmoxmcp.Text.Prefix.{
  strip_prefix-append, strip_prefix_at, starts_with_iff, split_once_iff, split_once-lacks,
}
use rustproxmoxmcp.VmConfig.{
  field_value, has_host_path, is_net, is_index, is_allowed_vm_config_key, allowed_vm_config_keys,
  allowed_vm_config_prefixes,
}

-- A field that is an absolute path: a slash in front, where it has no `=`, or right behind the first
-- `=`.
pub data IsHostPath : Text → Type 0 where
  bare : (rest : Text) → lacks b'=' (b'/' ∷ rest) ≡ true → IsHostPath (b'/' ∷ rest)
  named : (name rest : Text) → lacks b'=' name ≡ true → IsHostPath (name ++ b'=' ∷ b'/' ∷ rest)

pub host_path_iff :
    (field : Text) → (starts_with (field_value field) (codes "/") ≡ true) ↔ IsHostPath field
unfolding field_value
host_path_iff field = (λ h. sound h, λ p. complete field p)
  where
    sound : starts_with (field_value field) (codes "/") ≡ true → IsHostPath field
    sound h =
        let (rest, slash) = (starts_with_iff (field_value field) (codes "/")).0 h in
        elim (Option-cases (split_once b'=' field)) [
          | inl e ↦
              let whole : field ≡ b'/' ∷ rest = rw (e, field_value) at slash in
              let ends = split_once-lacks b'=' field e in rw whole (bare rest (rw whole at ends))
          | inr ((name, value), e) ↦
              let (spelled, ends) = (split_once_iff b'=' field name value).0 e in
              let path : value ≡ b'/' ∷ rest = rw (e, field_value) at slash in
              rw (spelled, path) (named name rest ends)
        ]

    complete : (f : Text) → IsHostPath f → starts_with (field_value f) (codes "/") ≡ true
    complete f (bare rest ends) =
        rw (field_value, split_once-none b'=' (b'/' ∷ rest) ends)
          ((starts_with_iff (b'/' ∷ rest) (codes "/")).1 (rest, refl))
    complete f (named name rest ends) =
        rw (field_value, split_once_at b'=' name (b'/' ∷ rest) ends)
          ((starts_with_iff (b'/' ∷ rest) (codes "/")).1 (rest, refl))

pub has_host_path_iff :
    (key value : Text)
    → (has_host_path (key, value) ≡ false)
      ↔ ((field : Text) → Has field (split b',' value) → IsHostPath field → ⊥)
unfolding has_host_path
has_host_path_iff key value = (
  λ h field m path. absurd (
      ground (
        arith,
        h,
        any-of-Has (λ f. starts_with (field_value f) (codes "/")) m ((host_path_iff field).1 path),
      )),
  λ clean.
      elim (Bool-cases (any (λ f. starts_with (field_value f) (codes "/")) (split b',' value))) [
        | inr e ↦ e
        | inl e ↦
            let (field, m, path) = Has-of-any _ (split b',' value) e in
            absurd (clean field m ((host_path_iff field).0 path))
      ],
)

-- The key begins with `net`, in any case of its letters.
abbrev pub IsNet : Text → Type 0
IsNet key = (rest : Text) × (to_ascii_lowercase key ≡ codes "net" ++ rest)

pub is_net_iff : (key : Text) → (is_net key ≡ true) ↔ IsNet key
unfolding is_net
is_net_iff key = starts_with_iff (to_ascii_lowercase key) (codes "net")

-- A name with a number behind it.
abbrev pub IsNumbered : Text → Text → Type 0
IsNumbered prefix name =
    (digits : Text) × (name ≡ prefix ++ digits)
    × (is_empty digits ≡ false)
    × (all is_digit digits ≡ true)

pub is_index_iff :
    (prefix name : Text) → (is_index (strip_prefix name prefix) ≡ true) ↔ IsNumbered prefix name
is_index_iff prefix name = (
  λ h. elim (Option-cases (strip_prefix name prefix)) [
    | inl e ↦ absurd (ground (arith, e, h))
    | inr (digits, e) ↦ (
      digits,
      strip_prefix-append name prefix digits e,
      ground (arith, e, h),
      ground (arith, e, h),
    )
  ],
  λ (digits, spelled, full, numeric).
      rw (spelled, strip_prefix_at prefix digits, full, numeric) refl,
)

-- The keys that an update may set, in lower case: those of cloud-init, of the size of the guest, and of
-- its metadata; and `ipconfig` with a number.
abbrev pub update_keys : List Text
update_keys =
    codes "ciuser"
    ∷ codes "sshkeys"
    ∷ codes "nameserver"
    ∷ codes "searchdomain"
    ∷ codes "citype"
    ∷ codes "ciupgrade"
    ∷ codes "cores"
    ∷ codes "sockets"
    ∷ codes "memory"
    ∷ codes "balloon"
    ∷ codes "cpu"
    ∷ codes "numa"
    ∷ codes "name"
    ∷ codes "description"
    ∷ codes "tags"
    ∷ codes "onboot"
    ∷ codes "startup"
    ∷ codes "agent"
    ∷ []

abbrev pub IsUpdateKey : Text → Type 0
IsUpdateKey key =
    Has (to_ascii_lowercase key) update_keys
    ⊎ IsNumbered (codes "ipconfig") (to_ascii_lowercase key)

pub or_iff :
    {A B : Type 0} (a b : Bool) → (a ≡ true) ↔ A → (b ≡ true) ↔ B → ((a || b) ≡ true) ↔ (A ⊎ B)
or_iff a b f g = (
  λ h. elim (Bool-cases a) [ inl e ↦ inl (f.0 e) | inr e ↦ inr (g.0 (ground (arith, e, h))) ],
  λ s. elim s [
    | inl x ↦ let e = f.1 x in ground (arith, e)
    | inr y ↦ let e = g.1 y in ground (arith, e)
  ],
)

pub is_allowed_vm_config_key_iff :
    (key : Text) → (is_allowed_vm_config_key key ≡ true) ↔ IsUpdateKey key
unfolding is_allowed_vm_config_key allowed_vm_config_keys allowed_vm_config_prefixes
is_allowed_vm_config_key_iff key =
    let lower = to_ascii_lowercase key in
    or_iff (contains update_keys lower) (is_index (strip_prefix lower (codes "ipconfig")) || false)
      (contains_iff update_keys lower)
      (
        λ h. (is_index_iff (codes "ipconfig") lower).0 (ground (arith, h)),
        λ n. let e = (is_index_iff (codes "ipconfig") lower).1 n in ground (arith, e),
      )
