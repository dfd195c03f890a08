-- ===== src/Plan/Tools.antt =====
-- Which tools an operation needs the scope of (crates/rust-proxmoxmcp/src/server/mod.rs).
use rustproxmoxmcp.Prelude.{
  ◌≡◌, ◌⊎◌, refl, Bool, true, false, ◌||◌, Option, none, some, arith, if◌then◌else◌, ok, ◌↔◌,
}
use rustproxmoxmcp.Text.{Text, codes, ◌==◌, contains}
use rustproxmoxmcp.Text.Equality.{eq_iff}
use rustproxmoxmcp.Selector.{GuestType, lxc, qemu}
use rustproxmoxmcp.Tier.{destructive, destructive_tools, tier_of}
use rustproxmoxmcp.Plan.{tool_for_op, migrate_precondition}

-- The tool, if there is one, is destructive.
abbrev IsDestructive : Option Text → Type 0
IsDestructive o = (tool : Text) → o ≡ some tool → contains destructive_tools tool ≡ true

named : (tool : Text) → contains destructive_tools tool ≡ true → IsDestructive (some tool)
named tool h other e = ground arith

nothing : IsDestructive none
nothing tool e = absurd (cc)

either :
    (b : Bool) (x y : Option Text)
    → IsDestructive x
    → IsDestructive y
    → IsDestructive (if b then x else y)
either true x y p q = p
either false x y p q = q

tool_for_op-IsDestructive : (op : Text) (kind : GuestType) → IsDestructive (tool_for_op op kind)
unfolding tool_for_op contains ◌==◌ destructive_tools
tool_for_op-IsDestructive op lxc =
    either (op == codes "destroy_guest" || op == codes "destroy") (some (codes "delete_container"))
      _ (named (codes "delete_container") refl)
      (either (op == codes "delete_snapshot") (some (codes "delete_snapshot")) _
        (named (codes "delete_snapshot") refl)
        (either (op == codes "rollback_snapshot") (some (codes "rollback_snapshot")) _
          (named (codes "rollback_snapshot") refl)
          (either (op == codes "delete_backup") (some (codes "delete_backup")) _
            (named (codes "delete_backup") refl)
            (either (op == codes "delete_iso") (some (codes "delete_iso")) _
              (named (codes "delete_iso") refl)
              (either (op == codes "restore_backup") (some (codes "restore_backup")) _
                (named (codes "restore_backup") refl)
                (either (op == codes "migrate") (some (codes "migrate_container")) _
                  (named (codes "migrate_container") refl)
                  (either (op == codes "update_vm_config") (some (codes "update_vm_config")) _
                    (named (codes "update_vm_config") refl) (nothing))))))))
tool_for_op-IsDestructive op qemu =
    either (op == codes "destroy_guest" || op == codes "destroy") (some (codes "delete_vm")) _
      (named (codes "delete_vm") refl)
      (either (op == codes "delete_snapshot") (some (codes "delete_snapshot")) _
        (named (codes "delete_snapshot") refl)
        (either (op == codes "rollback_snapshot") (some (codes "rollback_snapshot")) _
          (named (codes "rollback_snapshot") refl)
          (either (op == codes "delete_backup") (some (codes "delete_backup")) _
            (named (codes "delete_backup") refl)
            (either (op == codes "delete_iso") (some (codes "delete_iso")) _
              (named (codes "delete_iso") refl)
              (either (op == codes "restore_backup") (some (codes "restore_backup")) _
                (named (codes "restore_backup") refl)
                (either (op == codes "migrate") (some (codes "migrate_vm")) _
                  (named (codes "migrate_vm") refl)
                  (either (op == codes "update_vm_config") (some (codes "update_vm_config")) _
                    (named (codes "update_vm_config") refl) (nothing))))))))

-- The tool whose scope an operation needs, for either type of guest, is of the destructive tier.
pub tool_for_op-tier_of :
    (op : Text) (kind : GuestType) (tool : Text)
    → tool_for_op op kind ≡ some tool
    → tier_of tool ≡ some destructive
unfolding tier_of
tool_for_op-tier_of op kind tool h = ground (arith, tool_for_op-IsDestructive op kind tool h)

-- A migration is let through exactly when it is live and the guest runs, or offline and the guest is
-- stopped.
pub migrate_precondition_iff :
    (online : Bool) (status : Text)
    → (migrate_precondition online status ≡ ok tt) ↔ (
        ((online ≡ true) × (status ≡ codes "running"))
        ⊎ ((online ≡ false) × (status ≡ codes "stopped")))
unfolding migrate_precondition
migrate_precondition_iff online status =
    let running = eq_iff status (codes "running") in
    let stopped = eq_iff status (codes "stopped") in ground arith
