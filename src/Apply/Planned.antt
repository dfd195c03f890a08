-- ===== src/Apply/Planned.antt =====
-- What was planned passes the checks of the apply
-- (crates/rust-proxmoxmcp/src/server/mod.rs, `build_destroy_action` and `apply_change_set`).
use rustproxmoxmcp.Prelude.{◌≡◌, refl, inl, inr, Option, some, [], ok}
use rustproxmoxmcp.Text.{Text, codes, ◌==◌}
use rustproxmoxmcp.Volume.{validate_path_segment}
use rustproxmoxmcp.Volume.Laws.{validate_volid_kind_iff, validate_volid_for_operation_iff}
use rustproxmoxmcp.VmConfig.Laws.{reject_unsafe_vm_config_iff}
use rustproxmoxmcp.Plan.{
  PlanDestroyArgs, DestroyAction, bare, build_destroy_action, missing_required_fields,
}
use rustproxmoxmcp.Plan.Complete.{
  IsPlanOf, IsSegment, destroys, migrates, updates, on_snapshot, on_volume, restores,
}
use rustproxmoxmcp.Plan.Ready.{build_destroy_action-IsPlanOf, missing_required_fields-build}
use rustproxmoxmcp.Apply.{World}
use rustproxmoxmcp.Apply.Checks.{recheck_values, recheck_segment, recheck_segments}

module _ (world : World) where
  recheck_segment-IsSegment :
      (given : Option Text) (value field : Text)
      → IsSegment world.expand_segment given value
      → recheck_segment world (some value) field ≡ ok tt
  unfolding recheck_segment validate_path_segment
  recheck_segment-IsSegment given value field s = rw s.expanded.1 refl

  recheck_values-IsPlanOf :
      (args : PlanDestroyArgs) (action : DestroyAction)
      → IsPlanOf world.expand_segment args action
      → recheck_values action ≡ ok tt
  unfolding recheck_values bare ◌==◌
  recheck_values-IsPlanOf args action (destroys op) = rw op refl
  recheck_values-IsPlanOf args action (migrates node op s) = rw op refl
  recheck_values-IsPlanOf args action (updates op full safe) =
      rw (op, (reject_unsafe_vm_config_iff args.config).1 safe) refl
  recheck_values-IsPlanOf args action (on_snapshot name (inl op) s) = rw op refl
  recheck_values-IsPlanOf args action (on_snapshot name (inr op) s) = rw op refl
  recheck_values-IsPlanOf args action (on_volume node storage volid kind (inl (op, k)) n s v fits) =
      rw (op, (validate_volid_for_operation_iff volid storage (codes "backup")).1 (rw k at fits))
        refl
  recheck_values-IsPlanOf args action (on_volume node storage volid kind (inr (op, k)) n s v fits) =
      rw (op, (validate_volid_for_operation_iff volid storage (codes "iso")).1 (rw k at fits)) refl
  recheck_values-IsPlanOf args action (restores volid storage op v fits) =
      rw (op, (validate_volid_kind_iff volid (codes "backup")).1 (storage, fits)) refl

  recheck_segments-IsPlanOf :
      (args : PlanDestroyArgs) (action : DestroyAction)
      → IsPlanOf world.expand_segment args action
      → recheck_segments world action ≡ ok tt
  unfolding recheck_segments recheck_segment validate_path_segment bare
  recheck_segments-IsPlanOf args action (destroys op) = refl
  recheck_segments-IsPlanOf args action (migrates node op s) = refl
  recheck_segments-IsPlanOf args action (updates op full safe) = refl
  recheck_segments-IsPlanOf args action (on_snapshot name op s) = rw s.expanded.1 refl
  recheck_segments-IsPlanOf args action (on_volume node storage volid kind op n s v fits) =
      rw (s.expanded.1, n.expanded.1) refl
  recheck_segments-IsPlanOf args action (restores volid storage op v fits) = refl

  -- An action that was built for a plan passes every check that the apply makes of the action alone, if
  -- path segments are read the same way then: no field is missing, the volume id or the config is
  -- accepted again, and each name that stands in a path is.
  pub check_record-build :
      (args : PlanDestroyArgs) (action : DestroyAction)
      → build_destroy_action world.expand_segment args ≡ ok action
      → (missing_required_fields action ≡ [])
        × (recheck_values action ≡ ok tt)
        × (recheck_segments world action ≡ ok tt)
  check_record-build args action h =
      let plan = build_destroy_action-IsPlanOf world.expand_segment args action h in
      (
        missing_required_fields-build world.expand_segment args action h,
        recheck_values-IsPlanOf args action plan,
        recheck_segments-IsPlanOf args action plan,
      )
