-- ===== src/Plan/Complete.antt =====
-- What a plan that was built carries (crates/rust-proxmoxmcp/src/server/mod.rs).
use rustproxmoxmcp.Prelude.{
  ◌≡◌, ◌⊎◌, refl, inl, inr, false, Option, none, some, is_empty, arith, Option-cases, Result, ok,
  Result-cases, Has,
}
use rustproxmoxmcp.Text.{Text, codes}
use rustproxmoxmcp.Volume.{validate_path_segment, validate_volid_kind, validate_volid_for_operation}
use rustproxmoxmcp.Volume.Laws.{IsVolid, validate_volid_kind_iff, validate_volid_for_operation_iff}
use rustproxmoxmcp.VmConfig.{reject_unsafe_vm_config}
use rustproxmoxmcp.VmConfig.Laws.{IsSafeEntry, reject_unsafe_vm_config_iff}
use rustproxmoxmcp.Plan.{
  PlanDestroyArgs, DestroyAction, bare, require, require_segment, build_migrate, build_update,
  build_snapshot, build_volume, build_restore,
}

-- A field that was given, with something in it.
abbrev pub IsGiven : Option Text → Text → Type 0
IsGiven field value = (field ≡ some value) × (is_empty value ≡ false)

require_sound :
    (op : Text) (field : Option Text) (name value : Text)
    → require op field name ≡ ok value
    → IsGiven field value
unfolding require
require_sound op none name value h = absurd (cc)
require_sound op (some given) name value h = ground arith

module _ (expand_segment : Text → Result Text Text) where
  -- Such a field, that can stand in a path.
  pub record IsSegment (field : Option Text) (value : Text) : Type 0 where
    pub given : IsGiven field value
    pub expanded : (path : Text) × (expand_segment value ≡ ok path)

  require_segment_sound :
      (op : Text) (field : Option Text) (name value : Text)
      → require_segment expand_segment op field name ≡ ok value
      → IsSegment field value
  unfolding require_segment require validate_path_segment
  require_segment_sound op none name value h = absurd (cc)
  require_segment_sound op (some given) name value h = elim (Result-cases (expand_segment given)) [
    | inl (path, e) ↦
        let full : is_empty given ≡ false = ground (arith, e) in
        let same : given ≡ value = ground (arith, e, full) in
        record { given = rw same (refl, rw same at full); expanded = (path, rw same at e) }
    | inr (error, e) ↦ absurd (ground (arith, e))
  ]

  -- What the action of a plan is made of, for each operation.
  pub data IsPlanOf (args : PlanDestroyArgs) : DestroyAction → Type 0 where
    destroys : args.op ≡ codes "destroy_guest" → IsPlanOf args (bare args)
    migrates :
        (node : Text)
        → args.op ≡ codes "migrate"
        → IsSegment args.target_node node
        → IsPlanOf args (record (bare args) { target_node = some node })
    updates :
        args.op ≡ codes "update_vm_config"
        → is_empty args.config ≡ false
        → ((key value : Text) → Has (key, value) args.config → IsSafeEntry key value)
        → IsPlanOf args (record (bare args) { config = some args.config })
    on_snapshot :
        (snapname : Text)
        → (args.op ≡ codes "delete_snapshot") ⊎ (args.op ≡ codes "rollback_snapshot")
        → IsSegment args.snapname snapname
        → IsPlanOf args (record (bare args) { snapname = some snapname })
    on_volume :
        (node storage volid kind : Text)
        → ((args.op ≡ codes "delete_backup") × (kind ≡ codes "backup"))
          ⊎ ((args.op ≡ codes "delete_iso") × (kind ≡ codes "iso"))
        → IsSegment args.storage_node node
        → IsSegment args.storage storage
        → IsGiven args.volid volid
        → IsVolid volid storage kind
        → IsPlanOf args (record (bare args) {
          storage_node = some node;
          storage = some storage;
          volid = some volid;
        })
    restores :
        (volid storage : Text)
        → args.op ≡ codes "restore_backup"
        → IsGiven args.volid volid
        → IsVolid volid storage (codes "backup")
        → IsPlanOf args (record (bare args) { volid = some volid })

  pub build_migrate_sound :
      (args : PlanDestroyArgs) (action : DestroyAction)
      → args.op ≡ codes "migrate"
      → build_migrate expand_segment args ≡ ok action
      → IsPlanOf args action
  unfolding build_migrate
  build_migrate_sound args action op h =
      elim (Result-cases
        (require_segment expand_segment args.op args.target_node (codes "target_node"))) [
          | inl (node, e) ↦
              let same : record (bare args) { target_node = some node } ≡ action =
                ground (arith, e) in
              rw (← same)
                (migrates node op (require_segment_sound args.op args.target_node _ node e))
          | inr (error, e) ↦ absurd (ground (arith, e))
        ]

  pub build_snapshot_sound :
      (args : PlanDestroyArgs) (action : DestroyAction)
      → (args.op ≡ codes "delete_snapshot") ⊎ (args.op ≡ codes "rollback_snapshot")
      → build_snapshot expand_segment args ≡ ok action
      → IsPlanOf args action
  unfolding build_snapshot
  build_snapshot_sound args action op h =
      elim (Result-cases
        (require_segment expand_segment args.op args.snapname (codes "snapname"))) [
          | inl (name, e) ↦
              let same : record (bare args) { snapname = some name } ≡ action = ground (arith, e) in
              rw (← same)
                (on_snapshot name op (require_segment_sound args.op args.snapname _ name e))
          | inr (error, e) ↦ absurd (ground (arith, e))
        ]

  pub build_update_sound :
      (args : PlanDestroyArgs) (action : DestroyAction)
      → args.op ≡ codes "update_vm_config"
      → build_update expand_segment args ≡ ok action
      → IsPlanOf args action
  unfolding build_update
  build_update_sound args action op h = elim (Option-cases (reject_unsafe_vm_config args.config)) [
    | inl e ↦
        let full : is_empty args.config ≡ false = ground (arith, e) in
        let same : record (bare args) { config = some args.config } ≡ action =
          ground (arith, e, full) in
        rw (← same) (updates op full ((reject_unsafe_vm_config_iff args.config).0 e))
    | inr (message, e) ↦ absurd (ground (arith, e))
  ]

  pub build_restore_sound :
      (args : PlanDestroyArgs) (action : DestroyAction)
      → args.op ≡ codes "restore_backup"
      → build_restore expand_segment args ≡ ok action
      → IsPlanOf args action
  unfolding build_restore
  build_restore_sound args action op h =
      elim (Result-cases (require args.op args.volid (codes "volid"))) [
        | inl (volid, e) ↦ elim (Result-cases (validate_volid_kind volid (codes "backup"))) [
          | inl (tt, v) ↦
              let same : record (bare args) { volid = some volid } ≡ action =
                ground (arith, e, v) in
              let (storage, fits) = (validate_volid_kind_iff volid (codes "backup")).0 v in
              rw (← same)
                (restores volid storage op (require_sound args.op args.volid _ volid e) fits)
          | inr (error, v) ↦ absurd (ground (arith, e, v))
        ]
        | inr (error, e) ↦ absurd (ground (arith, e))
      ]

  pub build_volume_sound :
      (kind : Text) (args : PlanDestroyArgs) (action : DestroyAction)
      → ((args.op ≡ codes "delete_backup") × (kind ≡ codes "backup"))
        ⊎ ((args.op ≡ codes "delete_iso") × (kind ≡ codes "iso"))
      → build_volume expand_segment kind args ≡ ok action
      → IsPlanOf args action
  unfolding build_volume
  build_volume_sound kind args action op h =
      elim (Result-cases
        (require_segment expand_segment args.op args.storage_node (codes "storage_node"))) [
          | inl (node, n) ↦
              elim (Result-cases
                (require_segment expand_segment args.op args.storage (codes "storage"))) [
                  | inl (storage, s) ↦
                      elim (Result-cases (require args.op args.volid (codes "volid"))) [
                        | inl (volid, e) ↦
                            elim (Result-cases (validate_volid_for_operation volid storage kind)) [
                              | inl (tt, v) ↦
                                  let same : record (bare args) {
                                    storage_node = some node;
                                    storage = some storage;
                                    volid = some volid;
                                  }
                                      ≡ action =
                                    ground (arith, n, s, e, v) in
                                  rw (← same) (
                                    on_volume node storage volid kind op
                                      (require_segment_sound args.op args.storage_node _ node n)
                                      (require_segment_sound args.op args.storage _ storage s)
                                      (require_sound args.op args.volid _ volid e)
                                      ((validate_volid_for_operation_iff volid storage kind).0 v))
                              | inr (error, v) ↦ absurd (ground (arith, n, s, e, v))
                            ]
                        | inr (error, e) ↦ absurd (ground (arith, n, s, e))
                      ]
                  | inr (error, s) ↦ absurd (ground (arith, n, s))
                ]
          | inr (error, n) ↦ absurd (ground (arith, n))
        ]
