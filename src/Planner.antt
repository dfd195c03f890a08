-- ===== src/Planner.antt =====
-- crates/rust-proxmoxmcp/src/server/mod.rs, `plan_destroy`: the checks, and what is recorded.
pub mod Recorded
pub mod Checks
pub mod Sound
use rustproxmoxmcp.Prelude.{
  ℕ, Bool, true, false, not, ◌&&◌, ◌||◌, Option, none, some, List, [], ◌∷◌, ◌++◌, if◌then◌else◌,
  Result, ok, err, ◌>>=◌, ◌>>◌, ok_or, map_err, refuse_if,
}
use rustproxmoxmcp.Text.{Text, codes, ◌==◌, contains}
use rustproxmoxmcp.Error.{ProxmoxError}
use rustproxmoxmcp.Selector.{qemu, same_type}
use rustproxmoxmcp.Inventory.{Cluster}
use rustproxmoxmcp.Grant.{ProxmoxGrant}
use rustproxmoxmcp.Guest.{ResolvedGuest}
use rustproxmoxmcp.Protect.{Override, no_override, waiver, lab_mode, DestructiveAttempt}
use rustproxmoxmcp.Resolve.{
  GuestIndex, AuthorizedGuest, resolve, invalidate_cluster, intent_destructive,
}
use rustproxmoxmcp.Plan.{
  PlanDestroyArgs, DestroyAction, build_destroy_action, destroy_requires_a_stopped_guest,
  migrate_precondition, tool_for_op, require_unrestricted_scope_for_delete_iso,
}
use rustproxmoxmcp.ChangeSet.{GuestState, state_of}
use rustproxmoxmcp.Server.{
  ProxmoxServer, Caller, ToolError, require_tool, principal_of, override_for,
  authorize_with_override, core, message, unknown_operation, unreadable_config,
}
use rustproxmoxmcp.Server.Low.{admit_caller}
use rustproxmoxmcp.Apply.{World, require_backup_owner}
use rustproxmoxmcp.Apply.Checks.{device_of}

-- What a plan is answered besides: by the cluster, and by the coordinator of change sets.
pub record PlanWorld : Type 0 where
  pub world : World
  pub node_names : Result (List Text) ProxmoxError
  pub preview : DestroyAction → GuestState → Override → Text
  pub create : Text → DestroyAction → Text → Text → Result Text Text
  pub is_read_back : Bool
  pub store_preview : Text → Result (Unit {0}) Text
  pub waive_approval : Result (Unit {0}) Text

pub data PlanEffect : Type 0 where
  created : Text → DestroyAction → Text → Text → PlanEffect
  previewed : Text → PlanEffect
  approval_waived : PlanEffect

-- What the checks hand on.
pub record Planned : Type 0 where
  pub action : DestroyAction
  pub state : GuestState

-- `expect`, which a plan that was built never meets
unfoldable pub expected : Option Text → Result Text ToolError
expected field = ok_or field (message (codes "expect"))

-- An archive belongs to the guest, as far as the cluster knows.
unfoldable pub check_owner : World → DestroyAction → ResolvedGuest → ℕ → Result (Unit {0}) ToolError
unfolding expected
check_owner world action guest vmid =
    if action.op == codes "delete_backup" || action.op == codes "restore_backup"
    then (do
      node ←
          if action.op == codes "delete_backup" then expected action.storage_node else ok guest.node
      volid ← expected action.volid
      map_err core (require_backup_owner world node volid vmid))
    else ok tt

-- A migration leads to another node of the cluster.
unfoldable pub check_migrate :
    PlanWorld → DestroyAction → ResolvedGuest → Result (Unit {0}) ToolError
unfolding expected
check_migrate plan_world action guest =
    if action.op == codes "migrate"
    then (do
      target_node ← expected action.target_node
      refuse_if (target_node == guest.node) (message (codes "nothing to migrate"))
      map_err message (migrate_precondition action.online guest.status)
      nodes ← map_err core plan_world.node_names
      refuse_if (not (contains nodes target_node)) (message (codes "not a member of the cluster")))
    else ok tt

-- The checks behind the authorization.
unfoldable pub check_plan :
    ProxmoxServer
    → PlanWorld
    → Option Caller
    → PlanDestroyArgs
    → ProxmoxGrant
    → ResolvedGuest
    → Result Planned ToolError
unfolding check_owner check_migrate
check_plan server plan_world caller args grant guest = do
  action ← map_err message (build_destroy_action plan_world.world.expand_segment args)
  check_owner plan_world.world action guest args.vmid
  refuse_if (destroy_requires_a_stopped_guest action.op && not (guest.status == codes "stopped"))
      (message (codes "Proxmox destroys only a stopped guest"))
  check_migrate plan_world action guest
  refuse_if (action.op == codes "update_vm_config" && not (same_type guest.type qemu))
      (message (codes "update_vm_config only updates QEMU (VM) config"))
  tool ← ok_or (tool_for_op action.op guest.type) (unknown_operation action.op)
  require_tool server caller tool args.cluster
  map_err message (require_unrestricted_scope_for_delete_iso action.op grant)
  config ← map_err unreadable_config (plan_world.world.config_state guest)
  ok (record { action = action; state = state_of args.cluster guest config })

abbrev pub owner_of : Option Caller → Text
owner_of none = codes "stdio"
owner_of (some caller) = caller.token_name

-- Lab mode waives the approval; a waiver does not.
unfoldable pub waive : PlanWorld → Override → Text → Result Text ToolError × List PlanEffect
waive plan_world lab_mode id = elim plan_world.waive_approval [
  | err e ↦ (err (message e), [])
  | ok u ↦ (ok id, approval_waived ∷ [])
]
waive plan_world no_override id = (ok id, [])
waive plan_world (waiver reason ticket until) id = (ok id, [])

-- The change set with its preview: without one it is not answered as planned.
unfoldable pub record_plan :
    PlanWorld
    → Option Caller
    → PlanDestroyArgs
    → Override
    → Planned
    → Result Text ToolError × List PlanEffect
unfolding waive
record_plan plan_world caller args override planned =
    let device = device_of args.cluster args.vmid in
    let expected_fingerprint = plan_world.world.fingerprint planned.state in
    let made = created device planned.action (owner_of caller) expected_fingerprint in
    let text = plan_world.preview planned.action planned.state override in
    elim (plan_world.create device planned.action (owner_of caller) expected_fingerprint) [
      | err e ↦ (err (message e), [])
      | ok id ↦
          let (result, effects) = waive plan_world override id in
          if not plan_world.is_read_back
          then (err (message (codes "the change set could not be read back")), made ∷ [])
          else elim (plan_world.store_preview text) [
            | err e ↦ (err (message e), made ∷ [])
            | ok u ↦ (result, made ∷ previewed text ∷ effects)
          ]
    ]

-- What `plan_destroy` checks once the caller is admitted, and the index that it leaves.
unfoldable pub check_admitted :
    ProxmoxServer
    → PlanWorld
    → GuestIndex
    → Option Caller
    → PlanDestroyArgs
    → Cluster
    → ProxmoxGrant
    → Result Planned ToolError × GuestIndex
unfolding check_plan
check_admitted server plan_world index caller args policy grant =
    let (authorized, index') =
      authorize_with_override server policy (invalidate_cluster args.cluster index)
        plan_world.world.first plan_world.world.second args.cluster args.vmid grant
        (record { op = args.op; principal = principal_of caller }) intent_destructive in
    (
      (do
        granted ← map_err core authorized
        check_plan server plan_world caller args grant granted.guest),
      index',
    )

-- The override that the plan is authorized with.
unfoldable pub plan_override :
    ProxmoxServer → PlanWorld → GuestIndex → Option Caller → PlanDestroyArgs → Cluster → Override
plan_override server plan_world index caller args policy =
    override_for server policy args.cluster args.vmid plan_world.world.first.now_unix
      (record { op = args.op; principal = principal_of caller })
      (resolve (invalidate_cluster args.cluster index) plan_world.world.first.now args.cluster
        args.vmid plan_world.world.first.reply).0

-- `plan_destroy`: what it answers, its effects in their order, and the index that it leaves.
unfoldable pub plan_destroy :
    ProxmoxServer
    → PlanWorld
    → GuestIndex
    → Option Caller
    → PlanDestroyArgs
    → (Result Text ToolError × List PlanEffect) × GuestIndex
unfolding check_admitted plan_override record_plan
plan_destroy server plan_world index caller args =
    elim (admit_caller server caller (codes "plan_proxmox_destroy") args.cluster) [
      | err e ↦ ((err e, []), index)
      | ok (policy, grant) ↦
          let (checked, index') = check_admitted server plan_world index caller args policy grant in
          (
            elim checked [
              | err e ↦ (err e, [])
              | ok planned ↦
                  record_plan plan_world caller args
                    (plan_override server plan_world index caller args policy) planned
            ],
            index',
          )
    ]
