-- ===== src/VmConfig/Laws.antt =====
-- Which config passes (crates/rust-proxmoxmcp/src/server/mod.rs).
use rustproxmoxmcp.Prelude.{
  ◌≡◌, ◌↔◌, ◌⊎◌, refl, inl, inr, Bool, true, false, Option, none, some, List, [], ◌∷◌, map, arith,
  keep, find, is_empty, Bool-cases, Has, Has-of-any, any-of-Has, none_found, find-none, none_kept,
  keep_none,
}
use rustproxmoxmcp.Text.{Text, codes, split, trim, to_ascii_lowercase, eq_ignore_ascii_case}
use rustproxmoxmcp.Text.Equality.{eq_iff}
use rustproxmoxmcp.VmConfig.Forms.{
  IsHostPath, IsNet, IsUpdateKey, has_host_path_iff, is_net_iff, is_allowed_vm_config_key_iff,
}
use rustproxmoxmcp.VmConfig.{
  VmConfig, has_host_path, config_host_paths, is_password, is_net, is_disallowed, firewall_on,
  is_unguarded, or_else, refuse_first, refuse_all, refuse_host_paths, reject_unsafe_vm_config,
  password_message, disallowed_message, unguarded_message,
}

-- An entry that may be passed on: it is no password, its key is an update key or begins with `net`, an
-- entry of a network interface switches its firewall on in a field of its own, and no field is a host
-- path.
pub record IsSafeEntry (key value : Text) : Type 0 where
  pub no_password : to_ascii_lowercase key ≡ codes "cipassword" → ⊥
  pub allowed : IsNet key ⊎ IsUpdateKey key
  pub guarded :
      IsNet key
      → (field : Text) × Has field (split b',' value)
        × (to_ascii_lowercase (trim field) ≡ codes "firewall=1")
  pub inside : (field : Text) → Has field (split b',' value) → IsHostPath field → ⊥

abbrev IsClean : Text → Text → Type 0
IsClean key value =
    (is_password (key, value) ≡ false)
    × (is_disallowed (key, value) ≡ false)
    × (is_unguarded (key, value) ≡ false)
    × (has_host_path (key, value) ≡ false)

safe-of-clean : (key value : Text) → IsClean key value → IsSafeEntry key value
unfolding is_password is_disallowed is_unguarded firewall_on eq_ignore_ascii_case
safe-of-clean key value (a, b, c, d) = record {
  no_password = λ e. absurd (
      ground (
        arith,
        a,
        (eq_iff (to_ascii_lowercase key) (to_ascii_lowercase (codes "cipassword"))).1 e,
      ));
  allowed = elim (Bool-cases (is_net key)) [
    | inl e ↦ inl ((is_net_iff key).0 e)
    | inr e ↦ inr ((is_allowed_vm_config_key_iff key).0 (ground (arith, e, b)))
  ];
  guarded = λ net.
      let e = (is_net_iff key).1 net in
      let (field, m, on) =
        Has-of-any (λ f. eq_ignore_ascii_case (trim f) (codes "firewall=1")) (split b',' value)
          (ground (arith, e, c)) in
      (
        field,
        m,
        (eq_iff (to_ascii_lowercase (trim field)) (to_ascii_lowercase (codes "firewall=1"))).0 on,
      );
  inside = (has_host_path_iff key value).0 d;
}

IsClean-of-safe : (key value : Text) → IsSafeEntry key value → IsClean key value
unfolding is_password is_disallowed is_unguarded firewall_on eq_ignore_ascii_case
IsClean-of-safe key value s = (
  elim (Bool-cases (eq_ignore_ascii_case key (codes "cipassword"))) [
    | inr e ↦ e
    | inl e ↦ absurd (
        s.no_password
          ((eq_iff (to_ascii_lowercase key) (to_ascii_lowercase (codes "cipassword"))).0 e))
  ],
  elim s.allowed [
    | inl net ↦ let e = (is_net_iff key).1 net in ground (arith, e)
    | inr known ↦ let e = (is_allowed_vm_config_key_iff key).1 known in ground (arith, e)
  ],
  elim (Bool-cases (is_net key)) [
    | inl e ↦
        let (field, m, on) = s.guarded ((is_net_iff key).0 e) in
        let set =
          any-of-Has (λ f. eq_ignore_ascii_case (trim f) (codes "firewall=1")) m
            ((eq_iff (to_ascii_lowercase (trim field)) (to_ascii_lowercase (codes "firewall=1"))).1
              on) in
        ground (arith, e, set)
    | inr e ↦ ground (arith, e)
  ],
  (has_host_path_iff key value).1 s.inside,
)

or_else-none : (a b : Option Text) → or_else a b ≡ none → (a ≡ none) × (b ≡ none)
or_else-none none b h = (refl, h)
or_else-none (some a) b h = absurd (cc)

refuse_first-none :
    (p : Text × Text → Bool) (message : Text → Text) (config : VmConfig)
    → refuse_first p message config ≡ none
    → find p config ≡ none
refuse_first-none p message config h = ground arith

refuse_all-none :
    (p : Text × Text → Bool) (message : List Text → Text) (config : VmConfig)
    → refuse_all p message config ≡ none
    → is_empty (keep p config) ≡ true
refuse_all-none p message config h = ground arith

is_empty-map : {A B : Type 0} (f : A → B) (xs : List A) → is_empty (map f xs) ≡ is_empty xs
is_empty-map f [] = refl
is_empty-map f (x ∷ xs) = refl

refuse_host_paths-none :
    (config : VmConfig)
    → refuse_host_paths config ≡ none
    → is_empty (keep has_host_path config) ≡ true
unfolding refuse_host_paths config_host_paths
refuse_host_paths-none config h =
    ground (arith, is_empty-map (λ (entry : Text × Text). entry.0) (keep has_host_path config))

refuse_host_paths_empty :
    (config : VmConfig)
    → is_empty (keep has_host_path config) ≡ true
    → refuse_host_paths config ≡ none
unfolding refuse_host_paths config_host_paths
refuse_host_paths_empty config h =
    ground (arith, is_empty-map (λ (entry : Text × Text). entry.0) (keep has_host_path config))

reject_sound :
    (config : VmConfig) (key value : Text)
    → reject_unsafe_vm_config config ≡ none
    → Has (key, value) config
    → IsSafeEntry key value
unfolding reject_unsafe_vm_config
reject_sound config key value h m =
    let (a, h1) = or_else-none _ _ h in
    let (b, h2) = or_else-none _ _ h1 in
    let (c, d) = or_else-none _ _ h2 in
    safe-of-clean key value (
      none_found is_password config (refuse_first-none _ password_message config a) m,
      none_kept is_disallowed config (refuse_all-none _ disallowed_message config b) m,
      none_found is_unguarded config (refuse_first-none _ unguarded_message config c) m,
      none_kept has_host_path config (refuse_host_paths-none config d) m,
    )

reject_complete :
    (config : VmConfig)
    → ((key value : Text) → Has (key, value) config → IsSafeEntry key value)
    → reject_unsafe_vm_config config ≡ none
unfolding reject_unsafe_vm_config
reject_complete config safe =
    let clean : (key value : Text) → Has (key, value) config → IsClean key value =
      λ key value m. IsClean-of-safe key value (safe key value m) in
    rw
      (
        find-none is_password config (λ (key, value) m. (clean key value m).0),
        keep_none is_disallowed config (λ (key, value) m. (clean key value m).1),
        find-none is_unguarded config (λ (key, value) m. (clean key value m).2),
      )
      (refuse_host_paths_empty config
        (keep_none has_host_path config (λ (key, value) m. (clean key value m).3)))

-- A config is not refused exactly when each of its entries may be passed on: no key is `cipassword`,
-- each key is one of the keys of cloud-init, sizing and metadata that are spelled out, or `ipconfig`
-- with a number, or begins with `net` (in any case of the letters); an entry whose key begins with
-- `net` has a field `firewall=1`; and no field of a value has a slash behind its first `=`, or, where it
-- has no `=`, in front.
pub reject_unsafe_vm_config_iff :
    (config : VmConfig)
    → (reject_unsafe_vm_config config ≡ none)
      ↔ ((key value : Text) → Has (key, value) config → IsSafeEntry key value)
reject_unsafe_vm_config_iff config =
    (λ h key value m. reject_sound config key value h m, reject_complete config)
