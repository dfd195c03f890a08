-- ===== src/CreateConfig/Safe.antt =====
-- Which config a create passes on (crates/rust-proxmoxmcp/src/server/mod.rs, `reject_unsafe_config`).
use rustproxmoxmcp.Prelude.{
  ◌≡◌, ◌↔◌, ◌⊎◌, refl, inl, inr, Bool, true, false, none, some, List, [], ◌∷◌, arith, keep, find,
  is_empty, map, Bool-cases, Option-cases, Has, none_kept, keep_none, ok,
}
use rustproxmoxmcp.Text.{Text, codes, ◌==◌, split, trim, to_ascii_lowercase}
use rustproxmoxmcp.Text.Equality.{eq_iff}
use rustproxmoxmcp.Volume.{validate_volid_kind}
use rustproxmoxmcp.Volume.Laws.{IsVolid, validate_volid_kind_iff}
use rustproxmoxmcp.VmConfig.{VmConfig, has_host_path, config_host_paths}
use rustproxmoxmcp.VmConfig.Forms.{IsHostPath, has_host_path_iff}
use rustproxmoxmcp.CreateConfig.Forms.{
  IsDiskKey, IsCreateKey, IsNewDisk, IsMedium, is_create_disk_key_iff,
  is_allowed_create_config_key_iff, disk_value_is_new_allocation_iff,
  disk_value_is_allowed_media_iff, is_ok-of_ok,
}
use rustproxmoxmcp.CreateConfig.{
  is_create_disk_key, disk_value_is_new_allocation, is_unknown, is_foreign, bad_value,
  is_unprivileged, is_template, reject_unsafe_config,
}

-- An entry that a create may pass on: its key is one that may be set, no field of its value is a host
-- path, and a disk is a new one or an allowed medium.
pub record IsSafeEntry (key value : Text) : Type 0 where
  pub allowed : IsCreateKey (to_ascii_lowercase key)
  pub inside : (field : Text) → Has field (split b',' value) → IsHostPath field → ⊥
  pub own : IsDiskKey (to_ascii_lowercase key) → IsNewDisk value ⊎ IsMedium value

-- The entries are safe, and so are the values of the two keys whose value decides.
pub record IsSafeConfig (config : VmConfig) : Type 0 where
  pub entries : (key value : Text) → Has (key, value) config → IsSafeEntry key value
  pub unprivileged :
      (key value : Text)
      → find (λ (entry : Text × Text). entry.0 == codes "unprivileged") config ≡ some (key, value)
      → trim value ≡ codes "1"
  pub template :
      (key value : Text)
      → find (λ (entry : Text × Text). entry.0 == codes "ostemplate") config ≡ some (key, value)
      → (storage : Text) × IsVolid value storage (codes "vztmpl")

is_empty-map : {A B : Type 0} (f : A → B) (xs : List A) → is_empty (map f xs) ≡ is_empty xs
is_empty-map f [] = refl
is_empty-map f (x ∷ xs) = refl

bad_value-none :
    (name : Text) (is_good : Text → Bool) (config : VmConfig)
    → (bad_value name is_good config ≡ none) ↔ (
        (key value : Text)
        → find (λ (entry : Text × Text). entry.0 == name) config ≡ some (key, value)
        → is_good value ≡ true)
unfolding bad_value
bad_value-none name is_good config = (
  λ h key value found. ground (arith, found),
  λ good. elim (Option-cases (find (λ (entry : Text × Text). entry.0 == name) config)) [
    | inl e ↦ ground (arith, e)
    | inr ((key, value), e) ↦ ground (arith, e, good key value e)
  ],
)

-- The tests of one entry, against what they stand for.
clean_iff :
    (key value : Text)
    → ((is_unknown (key, value) ≡ false)
        × (has_host_path (key, value) ≡ false)
        × (is_foreign (key, value) ≡ false))
      ↔ IsSafeEntry key value
unfolding is_unknown is_foreign
clean_iff key value = (
  λ (a, b, c). record {
    allowed = (is_allowed_create_config_key_iff key).0 (ground arith);
    inside = (has_host_path_iff key value).0 b;
    own = λ disk.
        let is_disk = (is_create_disk_key_iff (to_ascii_lowercase key)).1 disk in
        elim (Bool-cases (disk_value_is_new_allocation value)) [
          | inl e ↦ inl ((disk_value_is_new_allocation_iff value).0 e)
          | inr e ↦ inr ((disk_value_is_allowed_media_iff value).0 (ground (arith, c, e, is_disk)))
        ];
  },
  λ s. (
    let e = (is_allowed_create_config_key_iff key).1 s.allowed in ground (arith, e),
    (has_host_path_iff key value).1 s.inside,
    elim (Bool-cases (is_create_disk_key (to_ascii_lowercase key))) [
      | inr e ↦ ground (arith, e)
      | inl e ↦ elim (s.own ((is_create_disk_key_iff (to_ascii_lowercase key)).0 e)) [
        | inl new_disk ↦
            let n = (disk_value_is_new_allocation_iff value).1 new_disk in ground (arith, n)
        | inr medium ↦ let n = (disk_value_is_allowed_media_iff value).1 medium in ground (arith, n)
      ]
    ],
  ),
)

is_template_iff :
    (value : Text)
    → (is_template value ≡ true) ↔ ((storage : Text) × IsVolid value storage (codes "vztmpl"))
is_template_iff value =
    let test = is_ok-of_ok (validate_volid_kind value (codes "vztmpl")) in
    let form = validate_volid_kind_iff value (codes "vztmpl") in
    (λ h. form.0 (test.0 h), λ v. test.1 (form.1 v))

-- The config passes exactly if none of its tests finds an entry.
passes_iff :
    (config : VmConfig)
    → (reject_unsafe_config config ≡ ok tt) ↔ (
        (is_empty (keep is_unknown config) ≡ true)
        × (bad_value (codes "unprivileged") is_unprivileged config ≡ none)
        × (bad_value (codes "ostemplate") is_template config ≡ none)
        × (is_empty (keep has_host_path config) ≡ true)
        × (is_empty (keep is_foreign config) ≡ true))
unfolding reject_unsafe_config config_host_paths
passes_iff config =
    let paths = is_empty-map (λ (entry : Text × Text). entry.0) (keep has_host_path config) in
    elim (Option-cases (bad_value (codes "unprivileged") is_unprivileged config)) [
      | inr (value, e) ↦
          (λ h. absurd (ground (arith, e)), λ (a, b, c, d, f). absurd (ground (arith, e, b)))
      | inl e ↦ elim (Option-cases (bad_value (codes "ostemplate") is_template config)) [
        | inr (value, e1) ↦
            (λ h. absurd (ground (arith, e, e1)), λ (a, b, c, d, f). absurd (ground (arith, e1, c)))
        | inl e1 ↦ (
          λ h. (
            ground (arith, e, e1, paths),
            e,
            e1,
            ground (arith, e, e1, paths),
            ground (arith, e, e1, paths),
          ),
          λ (a, b, c, d, f). ground (arith, e, e1, paths, a, d, f),
        )
      ]
    ]

-- A create passes a config on exactly if each key, in lower case, is one of those that are spelled
-- out, begins with `ipconfig` or `net`, or is that of a disk; no field of a value has a slash behind
-- its first `=`, or, where it has no `=`, in front; each disk is a new one (a storage, a size, options
-- that name no source, and no volume of a guest) or an allowed medium (none, a cloud-init drive, or an
-- ISO image); the value of `unprivileged`, if there is one, is 1 but for white space; and that of
-- `ostemplate` is the id of a container template.
pub reject_unsafe_config_iff :
    (config : VmConfig) → (reject_unsafe_config config ≡ ok tt) ↔ IsSafeConfig config
reject_unsafe_config_iff config = (
  λ h.
      let (a, b, c, d, e) = (passes_iff config).0 h in
      record {
        entries = λ key value m. (clean_iff key value).0 (
          none_kept is_unknown config a m,
          none_kept has_host_path config d m,
          none_kept is_foreign config e m,
        );
        unprivileged = λ key value found.
            (eq_iff (trim value) (codes "1")).0
              ((bad_value-none (codes "unprivileged") is_unprivileged config).0 b key value found);
        template = λ key value found.
            (is_template_iff value).0
              ((bad_value-none (codes "ostemplate") is_template config).0 c key value found);
      },
  λ s. (passes_iff config).1 (
    keep_none is_unknown config
        (λ (key, value) m. ((clean_iff key value).1 (s.entries key value m)).0),
    (bad_value-none (codes "unprivileged") is_unprivileged config).1
        (λ key value found. (eq_iff (trim value) (codes "1")).1 (s.unprivileged key value found)),
    (bad_value-none (codes "ostemplate") is_template config).1
        (λ key value found. (is_template_iff value).1 (s.template key value found)),
    keep_none has_host_path config
        (λ (key, value) m. ((clean_iff key value).1 (s.entries key value m)).1),
    keep_none is_foreign config
        (λ (key, value) m. ((clean_iff key value).1 (s.entries key value m)).2),
  ),
)
