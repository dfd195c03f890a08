-- ===== src/Plan/Ready.antt =====
-- A plan that was built can be applied as far as its fields go
-- (crates/rust-proxmoxmcp/src/server/mod.rs).
use rustproxmoxmcp.Prelude.{◌≡◌, refl, inl, inr, [], arith, Bool-cases, Result, ok}
use rustproxmoxmcp.Text.{Text, codes, ◌==◌}
use rustproxmoxmcp.Text.Equality.{eq_of_test}
use rustproxmoxmcp.Plan.{
  PlanDestroyArgs, DestroyAction, bare, build_destroy_action, present, present_config,
  required_fields, missing_required_fields,
}
use rustproxmoxmcp.Plan.Complete.{
  IsPlanOf, destroys, migrates, updates, on_snapshot, on_volume, restores, build_migrate_sound,
  build_snapshot_sound, build_update_sound, build_restore_sound, build_volume_sound,
}

module _ (expand_segment : Text → Result Text Text) where
  -- An action that was built for the arguments of a plan is, for the operation that the arguments
  -- name, the one that the operation is described to take: it repeats their cluster, guest and
  -- options, and carries exactly the fields of the operation, each as it was given, not empty, fit to
  -- stand in a path where it will, a volume id bound to its storage and to the kind of the operation,
  -- and a config whose entries all may be passed on.
  pub build_destroy_action-IsPlanOf :
      (args : PlanDestroyArgs) (action : DestroyAction)
      → build_destroy_action expand_segment args ≡ ok action
      → IsPlanOf expand_segment args action
  unfolding build_destroy_action
  build_destroy_action-IsPlanOf args action h =
      elim (Bool-cases (args.op == codes "destroy_guest")) [
        | inl e ↦
            let same : bare args ≡ action = ground (arith, e) in
            rw (← same) (destroys (eq_of_test args.op _ e))
        | inr f0 ↦ elim (Bool-cases (args.op == codes "migrate")) [
          | inl e ↦
              build_migrate_sound expand_segment args action (eq_of_test args.op _ e)
                (ground (arith, f0, e))
          | inr f1 ↦ elim (Bool-cases (args.op == codes "update_vm_config")) [
            | inl e ↦
                build_update_sound expand_segment args action (eq_of_test args.op _ e)
                  (ground (arith, f0, f1, e))
            | inr f2 ↦ elim (Bool-cases (args.op == codes "delete_snapshot")) [
              | inl e ↦
                  build_snapshot_sound expand_segment args action (inl (eq_of_test args.op _ e))
                    (ground (arith, f0, f1, f2, e))
              | inr f3 ↦ elim (Bool-cases (args.op == codes "rollback_snapshot")) [
                | inl e ↦
                    build_snapshot_sound expand_segment args action (inr (eq_of_test args.op _ e))
                      (ground (arith, f0, f1, f2, f3, e))
                | inr f4 ↦ elim (Bool-cases (args.op == codes "delete_backup")) [
                  | inl e ↦
                      build_volume_sound expand_segment (codes "backup") args action
                        (inl (eq_of_test args.op _ e, refl)) (ground (arith, f0, f1, f2, f3, f4, e))
                  | inr f5 ↦ elim (Bool-cases (args.op == codes "delete_iso")) [
                    | inl e ↦
                        build_volume_sound expand_segment (codes "iso") args action
                          (inr (eq_of_test args.op _ e, refl))
                          (ground (arith, f0, f1, f2, f3, f4, f5, e))
                    | inr f6 ↦ elim (Bool-cases (args.op == codes "restore_backup")) [
                      | inl e ↦
                          build_restore_sound expand_segment args action (eq_of_test args.op _ e)
                            (ground (arith, f0, f1, f2, f3, f4, f5, f6, e))
                      | inr f7 ↦ absurd (ground (arith, f0, f1, f2, f3, f4, f5, f6, f7))
                    ]
                  ]
                ]
              ]
            ]
          ]
        ]
      ]

  complete :
      (args : PlanDestroyArgs) (action : DestroyAction)
      → IsPlanOf expand_segment args action
      → missing_required_fields action ≡ []
  unfolding missing_required_fields required_fields bare present present_config ◌==◌
  complete args action (destroys op) = rw op refl
  complete args action (migrates node op s) = rw (op, s.given.1) refl
  complete args action (updates op full safe) = rw (op, full) refl
  complete args action (on_snapshot name (inl op) s) = rw (op, s.given.1) refl
  complete args action (on_snapshot name (inr op) s) = rw (op, s.given.1) refl
  complete args action (on_volume node storage volid kind (inl (op, k)) n s v fits) =
      rw (op, n.given.1, s.given.1, v.1) refl
  complete args action (on_volume node storage volid kind (inr (op, k)) n s v fits) =
      rw (op, n.given.1, s.given.1, v.1) refl
  complete args action (restores volid storage op v fits) = rw (op, v.1) refl

  -- A plan that was built misses none of the fields that its operation needs, so that the check
  -- before it is applied lets it through.
  pub missing_required_fields-build :
      (args : PlanDestroyArgs) (action : DestroyAction)
      → build_destroy_action expand_segment args ≡ ok action
      → missing_required_fields action ≡ []
  missing_required_fields-build args action h =
      complete args action (build_destroy_action-IsPlanOf args action h)
