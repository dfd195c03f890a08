-- ===== src/Apply/Checks.antt =====
-- crates/rust-proxmoxmcp/src/server/mod.rs, `apply_change_set`: the checks before the claim.
use rustproxmoxmcp.Prelude.{
  ℕ, Bool, true, false, not, ◌||◌, ◌++◌, Option, none, some, List, [], ◌∷◌, is_empty, if◌then◌else◌,
  Result, ok, err, ◌>>=◌, ◌>>◌, ok_or, map_err, refuse_if,
}
use rustproxmoxmcp.Text.{Text, codes, ◌==◌}
use rustproxmoxmcp.Text.Number.{decimal}
use rustproxmoxmcp.Json.{Json, get, as_str}
use rustproxmoxmcp.Error.{to_string}
use rustproxmoxmcp.Inventory.{Cluster}
use rustproxmoxmcp.Grant.{ProxmoxGrant}
use rustproxmoxmcp.Guest.{ResolvedGuest}
use rustproxmoxmcp.Resolve.{GuestIndex, resolve, invalidate_cluster, intent_destructive}
use rustproxmoxmcp.Volume.{validate_path_segment, validate_volid_kind, validate_volid_for_operation}
use rustproxmoxmcp.VmConfig.{reject_unsafe_vm_config}
use rustproxmoxmcp.Plan.{
  DestroyAction, tool_for_op, missing_required_fields, require_unrestricted_scope_for_delete_iso,
}
use rustproxmoxmcp.ChangeSet.{ChangeSet, ChangeSetState, state_of}
use rustproxmoxmcp.Server.{
  ProxmoxServer, Caller, ToolError, client_for, resolve_grant, require_tool, principal_of,
  authorize_with_override, core, message, no_change_set, no_preview, no_readable_op,
  unreadable_config, fingerprint_changed, not_approved, unreadable_action, no_action,
  unknown_operation, missing_fields, refused_at_apply,
}
use rustproxmoxmcp.Apply.{World}

-- What the checks hand on.
pub record Opened : Type 0 where
  pub policy : Cluster
  pub change_set : ChangeSet
  pub grant : ProxmoxGrant

pub record Cleared : Type 0 where
  pub change_set : ChangeSet
  pub guest : ResolvedGuest
  pub action : DestroyAction

abbrev pub is_none : {A : Type 0} → Option A → Bool
is_none none = true
is_none (some a) = false

-- `Option<String>::as_deref`, validated when there is one
abbrev pub when_given :
    Option Text → (Text → Result (Unit {0}) ToolError) → Result (Unit {0}) ToolError
when_given none check = ok tt
when_given (some text) check = check text

abbrev pub is_approved : ChangeSetState → Bool
is_approved ChangeSetState.approved = true
is_approved _ = false

-- `format!("{}/{}", args.cluster, args.vmid)`
unfoldable pub device_of : Text → ℕ → Text
device_of cluster vmid = cluster ++ (codes "/" ++ decimal vmid)

-- `record.actions.first()…get("op")…as_str()`
unfoldable pub op_of : List Json → Option Text
op_of [] = none
op_of (value ∷ rest) = elim (get value (codes "op")) [ none ↦ none | some op ↦ as_str op ]

unfoldable pub first_action : World → List Json → Result DestroyAction ToolError
first_action world [] = err no_action
first_action world (value ∷ rest) = map_err unreadable_action (world.read_action value)

unfoldable pub open_change_set :
    ProxmoxServer → World → Option Caller → Text → ℕ → Text → Result Opened ToolError
unfolding client_for resolve_grant device_of
open_change_set server world caller cluster vmid change_set_id = do
  require_tool server caller (codes "apply_proxmox_change_set") cluster
  policy ← client_for server cluster
  change ← map_err no_change_set (world.change_set change_set_id (device_of cluster vmid))
  refuse_if (is_none change.preview) no_preview
  grant ← resolve_grant caller
  ok (record { policy = policy; change_set = change; grant = grant })

-- What is validated again, with the operation that the action names.
unfoldable pub recheck_values : DestroyAction → Result (Unit {0}) ToolError
recheck_values action =
    if action.op == codes "delete_backup" || action.op == codes "delete_iso"
    then (do
      volid ← ok_or action.volid (refused_at_apply action.op)
      storage ← ok_or action.storage (refused_at_apply action.op)
      map_err (λ error. refused_at_apply (to_string error))
          (validate_volid_for_operation volid storage
            (if action.op == codes "delete_backup" then codes "backup" else codes "iso")))
    else if action.op == codes "restore_backup"
    then (do
      volid ← ok_or action.volid (refused_at_apply action.op)
      map_err (λ error. refused_at_apply (to_string error))
          (validate_volid_kind volid (codes "backup")))
    else if action.op == codes "update_vm_config"
    then elim action.config [
      | none ↦ ok tt
      | some config ↦ elim (reject_unsafe_vm_config config) [
        | none ↦ ok tt
        | some problem ↦ err (refused_at_apply problem)
      ]
    ]
    else ok tt

unfoldable pub recheck_segment : World → Option Text → Text → Result (Unit {0}) ToolError
recheck_segment world value field = when_given value (λ text.
    map_err (λ error. refused_at_apply (to_string error))
      (validate_path_segment world.expand_segment text field))

unfoldable pub recheck_segments : World → DestroyAction → Result (Unit {0}) ToolError
unfolding recheck_segment
recheck_segments world action = do
  recheck_segment world action.snapname (codes "snapname")
  recheck_segment world action.storage (codes "storage")
  recheck_segment world action.storage_node (codes "storage_node")

-- What is checked of the record once the guest is authorized.
unfoldable pub check_record :
    ProxmoxServer → World → Option Caller → Text → Opened → ResolvedGuest → Result Cleared ToolError
unfolding first_action recheck_values recheck_segments
check_record server world caller cluster opened guest = do
  config ← map_err unreadable_config (world.config_state guest)
  refuse_if
      (not (
        world.fingerprint (state_of cluster guest config)
        == opened.change_set.expected_candidate_fingerprint))
      (fingerprint_changed opened.change_set.expected_candidate_fingerprint
        (world.fingerprint (state_of cluster guest config)))
  refuse_if (not (is_approved opened.change_set.state)) not_approved
  action ← first_action world opened.change_set.actions
  tool ← ok_or (tool_for_op action.op guest.type) (unknown_operation action.op)
  require_tool server caller tool cluster
  map_err message (require_unrestricted_scope_for_delete_iso action.op opened.grant)
  refuse_if (not (is_empty (missing_required_fields action)))
      (missing_fields (missing_required_fields action))
  recheck_values action
  recheck_segments world action
  ok (record { change_set = opened.change_set; guest = guest; action = action })

-- The checks from the tool's scope to the last field of the action; the index is the one that the
-- calls of the cluster leave behind.
unfoldable pub check_opened :
    ProxmoxServer
    → World
    → GuestIndex
    → Option Caller
    → Text
    → ℕ
    → Opened
    → Result Cleared ToolError × GuestIndex
unfolding op_of check_record
check_opened server world index caller cluster vmid opened =
    let index' = invalidate_cluster cluster index in
    elim (op_of opened.change_set.actions) [
      | none ↦
          (err no_readable_op, (resolve index' world.first.now cluster vmid world.first.reply).1)
      | some op ↦
          let (authorized, index'') =
            authorize_with_override server opened.policy index' world.first world.second cluster
              vmid opened.grant (record { op = op; principal = principal_of caller })
              intent_destructive in
          (
            (do
              granted ← map_err core authorized
              check_record server world caller cluster opened granted.guest),
            index'',
          )
    ]

unfoldable pub check_apply :
    ProxmoxServer
    → World
    → GuestIndex
    → Option Caller
    → Text
    → ℕ
    → Text
    → Result Cleared ToolError × GuestIndex
unfolding open_change_set check_opened
check_apply server world index caller cluster vmid change_set_id =
    elim (open_change_set server world caller cluster vmid change_set_id) [
      | err e ↦ (err e, index)
      | ok opened ↦ check_opened server world index caller cluster vmid opened
    ]
