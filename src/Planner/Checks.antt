-- ===== src/Planner/Checks.antt =====
-- What the checks of a plan on its archive and on its migration say
-- (crates/rust-proxmoxmcp/src/server/mod.rs, `plan_destroy`).
use rustproxmoxmcp.Prelude.{
  ℕ, ◌≡◌, ◌⊎◌, refl, inl, inr, true, false, ◌||◌, some, List, arith, eqb, eqb_iff, Bool-cases,
  Option-cases, Result-cases, ok,
}
use rustproxmoxmcp.Text.{Text, codes, ◌==◌, contains}
use rustproxmoxmcp.Guest.{ResolvedGuest}
use rustproxmoxmcp.Plan.{DestroyAction, migrate_precondition}
use rustproxmoxmcp.Apply.{World, require_backup_owner}
use rustproxmoxmcp.Planner.{PlanWorld, expected, check_owner, check_migrate}

-- An action on an archive: the cluster says that the archive, on the node of the action or of the guest,
-- is that of the guest.
pub record IsOwnArchive (world : World) (action : DestroyAction) (guest : ResolvedGuest) (vmid : ℕ)
    : Type 0 where
  pub node : Text
  pub volid : Text
  pub on :
      (((action.op == codes "delete_backup") ≡ true) × (action.storage_node ≡ some node))
      ⊎ (((action.op == codes "delete_backup") ≡ false) × (guest.node ≡ node))
  pub archive : action.volid ≡ some volid
  pub owner : world.backup_owner node volid ≡ ok vmid

-- A migration: to another node, which is a member of the cluster, in a way that suits the guest's status.
pub record IsMove (plan_world : PlanWorld) (action : DestroyAction) (guest : ResolvedGuest)
    : Type 0 where
  pub target : Text
  pub nodes : List Text
  pub named : action.target_node ≡ some target
  pub elsewhere : (target == guest.node) ≡ false
  pub suits : migrate_precondition action.online guest.status ≡ ok tt
  pub listed : plan_world.node_names ≡ ok nodes
  pub member : contains nodes target ≡ true

require_backup_owner_sound :
    (world : World) (node volid : Text) (vmid : ℕ)
    → require_backup_owner world node volid vmid ≡ ok tt
    → world.backup_owner node volid ≡ ok vmid
unfolding require_backup_owner
require_backup_owner_sound world node volid vmid h =
    elim (Result-cases (world.backup_owner node volid)) [
      | inr (e, e1) ↦ absurd (ground (arith, e1, h))
      | inl (owner, e1) ↦
          let test : eqb owner vmid ≡ true = ground (arith, e1, h) in
          let same = (eqb_iff owner vmid).0 test in rw (← same) e1
    ]

pub check_owner-IsOwnArchive :
    (world : World) (action : DestroyAction) (guest : ResolvedGuest) (vmid : ℕ)
    → check_owner world action guest vmid ≡ ok tt
    → ((action.op == codes "delete_backup" || action.op == codes "restore_backup") ≡ false)
      ⊎ IsOwnArchive world action guest vmid
unfolding check_owner expected
check_owner-IsOwnArchive world action guest vmid h =
    elim (Bool-cases (action.op == codes "delete_backup" || action.op == codes "restore_backup")) [
      | inr e ↦ inl e
      | inl e ↦ elim (Option-cases action.volid) [
        | inl e1 ↦ elim (Bool-cases (action.op == codes "delete_backup")) [
          | inr e2 ↦ absurd (ground (arith, e, e1, e2, h))
          | inl e2 ↦ elim (Option-cases action.storage_node) [
            | inl e3 ↦ absurd (ground (arith, e, e1, e2, e3, h))
            | inr (node, e3) ↦ absurd (ground (arith, e, e1, e2, e3, h))
          ]
        ]
        | inr (volid, e1) ↦ elim (Bool-cases (action.op == codes "delete_backup")) [
          | inr e2 ↦ inr (record {
            node = guest.node;
            volid = volid;
            on = inr (e2, refl);
            archive = e1;
            owner =
                require_backup_owner_sound world guest.node volid vmid
                  (ground (arith, e, e1, e2, h));
          })
          | inl e2 ↦ elim (Option-cases action.storage_node) [
            | inl e3 ↦ absurd (ground (arith, e, e1, e2, e3, h))
            | inr (node, e3) ↦ inr (record {
              node = node;
              volid = volid;
              on = inl (e2, e3);
              archive = e1;
              owner =
                  require_backup_owner_sound world node volid vmid
                    (ground (arith, e, e1, e2, e3, h));
            })
          ]
        ]
      ]
    ]

pub check_migrate-IsMove :
    (plan_world : PlanWorld) (action : DestroyAction) (guest : ResolvedGuest)
    → check_migrate plan_world action guest ≡ ok tt
    → ((action.op == codes "migrate") ≡ false) ⊎ IsMove plan_world action guest
unfolding check_migrate expected
check_migrate-IsMove plan_world action guest h = elim (Bool-cases (action.op == codes "migrate")) [
  | inr e ↦ inl e
  | inl e ↦ elim (Option-cases action.target_node) [
    | inl e1 ↦ absurd (ground (arith, e, e1, h))
    | inr (target, e1) ↦ elim (Result-cases (migrate_precondition action.online guest.status)) [
      | inr (problem, e2) ↦ absurd (ground (arith, e, e1, e2, h))
      | inl (tt, e2) ↦ elim (Result-cases plan_world.node_names) [
        | inr (problem, e3) ↦ absurd (ground (arith, e, e1, e2, e3, h))
        | inl (nodes, e3) ↦ inr (record {
          target = target;
          nodes = nodes;
          named = e1;
          elsewhere = ground (arith, e, e1, e2, e3, h);
          suits = e2;
          listed = e3;
          member = ground (arith, e, e1, e2, e3, h);
        })
      ]
    ]
  ]
]
