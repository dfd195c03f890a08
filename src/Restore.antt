-- ===== src/Restore.antt =====
-- crates/rust-proxmoxmcp/src/server/restore_change_set.rs: the plan of a restore of an archive into a
-- new guest.
use rustproxmoxmcp.Prelude.{
  ℕ, ◌≡◌, ◌↔◌, inl, inr, Bool, true, not, ◌||◌, ◌++◌, arith, Result-cases, Result, ok, ◌>>◌,
  map_err, refuse_if,
}
use rustproxmoxmcp.Text.{Text, codes, ◌==◌}
use rustproxmoxmcp.Text.Number.{decimal}
use rustproxmoxmcp.Error.{to_string}
use rustproxmoxmcp.Volume.{validate_path_segment, validate_volid_kind}

pub record PlanRestoreNewVmidArgs : Type 0 where
  pub cluster : Text
  pub node : Text
  pub target_vmid : ℕ
  pub kind : Text
  pub volid : Text

pub record RestoreNewVmidAction : Type 0 where
  pub cluster : Text
  pub node : Text
  pub target_vmid : ℕ
  pub kind : Text
  pub volid : Text
  pub owner_vmid : ℕ

abbrev pub is_kind : Text → Bool
is_kind kind = kind == codes "qemu" || kind == codes "lxc"

module _ (expand_segment : Text → Result Text Text) where
  unfoldable pub build_restore_new_vmid_action :
      PlanRestoreNewVmidArgs → ℕ → Result RestoreNewVmidAction Text
  build_restore_new_vmid_action args owner_vmid = do
    refuse_if (not (is_kind args.kind))
        (codes "kind must be 'qemu' or 'lxc', got '" ++ (args.kind ++ codes "'"))
    map_err (λ error. codes "node refused: " ++ to_string error)
        (validate_path_segment expand_segment args.node (codes "node"))
    map_err (λ error. to_string error) (validate_volid_kind args.volid (codes "backup"))
    ok (record {
      cluster = args.cluster;
      node = args.node;
      target_vmid = args.target_vmid;
      kind = args.kind;
      volid = args.volid;
      owner_vmid = owner_vmid;
    })

unfoldable pub render_restore_new_vmid_preview : RestoreNewVmidAction → Text
render_restore_new_vmid_preview action =
    codes "RESTORE INTO NEW VMID "
    ++ (decimal action.target_vmid
        ++ (codes " on cluster '"
            ++ (action.cluster
                ++ (codes "', node '"
                    ++ (action.node
                        ++ (codes "'\n  Creates a "
                            ++ (action.kind
                                ++ (codes " guest from the archive '"
                                    ++ (action.volid
                                        ++ codes
                                            "'. The VMID must still be free when this is applied -- if something now occupies it, the apply is refused rather than overwriting it.")))))))))

-- A plan of a restore is built exactly if the kind is one of the two, the node can stand in a path, and
-- the volume id is one of a backup; it then records what was asked for, with the owner of the archive.
pub build_restore_new_vmid_action_iff :
    (expand_segment : Text → Result Text Text) (args : PlanRestoreNewVmidArgs) (owner_vmid : ℕ)
    (action : RestoreNewVmidAction)
    → (build_restore_new_vmid_action expand_segment args owner_vmid ≡ ok action) ↔ (
        (is_kind args.kind ≡ true)
        × ((path : Text) × (expand_segment args.node ≡ ok path))
        × (validate_volid_kind args.volid (codes "backup") ≡ ok tt)
        × (action ≡ record {
          cluster = args.cluster;
          node = args.node;
          target_vmid = args.target_vmid;
          kind = args.kind;
          volid = args.volid;
          owner_vmid = owner_vmid;
        }))
unfolding build_restore_new_vmid_action validate_path_segment
build_restore_new_vmid_action_iff expand_segment args owner_vmid action =
    elim (Result-cases (expand_segment args.node)) [
      | inr (e, e1) ↦ (
        λ h. absurd (ground (arith, e1, h)),
        λ (a, (path, b), c, d). absurd (ground (arith, e1, b)),
      )
      | inl (path, e1) ↦ elim (Result-cases (validate_volid_kind args.volid (codes "backup"))) [
        | inr (e, e2) ↦ (
          λ h. absurd (ground (arith, e1, e2, h)),
          λ (a, b, c, d). absurd (ground (arith, e2, c)),
        )
        | inl (tt, e2) ↦ (
          λ h. (ground (arith, e1, e2, h), (path, e1), e2, ground (arith, e1, e2, h)),
          λ (a, b, c, d). ground (arith, e1, e2, a, d),
        )
      ]
    ]
