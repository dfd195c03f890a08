-- ===== src/Apply.antt =====
-- crates/rust-proxmoxmcp/src/server/mod.rs: `apply_change_set` and `execute_destructive`. The handler
-- is two phases: the checks, which send nothing that changes the cluster, and the commit, which gives
-- the sequence of its effects.
pub mod Checks
pub mod Commit
pub mod Cleared
pub mod Sent
pub mod Receipts
pub mod Settled
pub mod Planned
use rustproxmoxmcp.Prelude.{
  ℕ, Bool, true, false, not, ◌&&◌, ◌||◌, Option, none, some, List, [], ◌∷◌, ◌++◌, eqb, is_empty,
  if◌then◌else◌, Result, ok, err, ◌>>=◌, ◌>>◌, ok_or, map_err, refuse_if,
}
use rustproxmoxmcp.Text.{Text, codes, ◌==◌}
use rustproxmoxmcp.Text.Number.{decimal}
use rustproxmoxmcp.Json.{Json, get, as_str}
use rustproxmoxmcp.Error.{
  ProxmoxError, http, api, unauthorized, denied, not_found, malformed, config, unknown_cluster,
  to_string,
}
use rustproxmoxmcp.Selector.{GuestType, lxc, qemu}
use rustproxmoxmcp.Inventory.{Cluster}
use rustproxmoxmcp.Grant.{ProxmoxGrant}
use rustproxmoxmcp.Guest.{ResolvedGuest}
use rustproxmoxmcp.Protect.{DestructiveAttempt}
use rustproxmoxmcp.Resolve.{
  GuestIndex, AuthorizedGuest, resolve, invalidate_cluster, intent_destructive,
}
use rustproxmoxmcp.Volume.{validate_path_segment, validate_volid_kind, validate_volid_for_operation}
use rustproxmoxmcp.VmConfig.{reject_unsafe_vm_config}
use rustproxmoxmcp.Plan.{
  DestroyAction, tool_for_op, missing_required_fields, require_unrestricted_scope_for_delete_iso,
}
use rustproxmoxmcp.Task.{Upid, parse, TaskOutcome, succeeded, failed, classify_exit_status}
use rustproxmoxmcp.ChangeSet.{
  ChangeSet, ChangeSetState, GuestConfigState, GuestState, state_of, Request, delete_volume,
}
use rustproxmoxmcp.Server.{
  ProxmoxServer, Caller, Moment, ToolError, client_for, resolve_grant, require_tool, principal_of,
  authorize_with_override, core, message, no_change_set, no_preview, no_readable_op,
  unreadable_config, fingerprint_changed, not_approved, unreadable_action, no_action,
  unknown_operation, missing_fields, refused_at_apply, not_claimed, no_evidence, malformed_upid,
  poll_failed, task_failed,
}

-- What the handler is answered: by the coordinator of change sets, the cluster, the evidence recorder,
-- and the decoder of a recorded action; `send` gives what the functions of `guests` return,
-- `delete_volume` the body of the reply to a deletion of a volume.
pub record World : Type 0 where
  pub change_set : Text → Text → Result ChangeSet Text
  pub first : Moment
  pub second : Moment
  pub config_state : ResolvedGuest → Result GuestConfigState ProxmoxError
  pub fingerprint : GuestState → Text
  pub read_action : Json → Result DestroyAction Text
  pub expand_segment : Text → Result Text Text
  pub claim : Text → Text → Result ChangeSet Text
  pub has_evidence : Bool
  pub apply_intent : Result (Unit {0}) Text
  pub result_receipt : Bool → Text → Result (Unit {0}) Text
  pub update_change_set : ChangeSet → Result (Unit {0}) Text
  pub backup_owner : Text → Text → Result ℕ ProxmoxError
  pub send : Request → Result Text ProxmoxError
  pub delete_volume_reply : Text → Text → Text → Result Json ProxmoxError
  pub poll : Text → Text → Result Text Text

-- What the handler does, in order. A receipt and a change set that is stored are attempts: whether one
-- succeeds is what the world answers, and `logged` is the `tracing::error!` on its failure.
pub data Effect : Type 0 where
  claimed : Text → Effect
  intended : Text → Effect
  sent : Request → Effect
  receipted : Bool → Text → Effect
  stored : ChangeSet → Effect
  logged : Text → Effect

-- `value.as_deref().ok_or_else(|| missing(name))`
unfoldable pub recorded : DestroyAction → Option Text → Text → Result Text ProxmoxError
recorded action field name =
    ok_or field (malformed (action.op ++ (codes " action is missing " ++ name)))

unfoldable pub require_backup_owner : World → Text → Text → ℕ → Result (Unit {0}) ProxmoxError
require_backup_owner world node volid vmid = do
  owner ←
      map_err
        (λ error. denied (
          codes "could not establish which guest owns backup archive '"
          ++ (volid
              ++ (codes "': "
                  ++ (to_string error
                      ++ codes ". Refusing rather than trusting the archive's filename.")))))
        (world.backup_owner node volid)
  refuse_if (not (eqb owner vmid)) (
      denied (
        codes "backup archive '"
        ++ (volid
            ++ (codes "' belongs to guest "
                ++ (decimal owner
                    ++ (codes ", not "
                        ++ (decimal vmid
                            ++ codes
                                "; refusing an operation on an archive that does not belong to the named guest")))))))

-- The request that an action stands for, once its fields are read and its archive is looked up.
unfoldable pub choose_request :
    World → DestroyAction → GuestType → Text → ℕ → Result Request ProxmoxError
unfolding recorded require_backup_owner
choose_request world action kind node vmid =
    if action.op == codes "destroy_guest" || action.op == codes "destroy"
    then ok (elim kind [
      | lxc ↦ Request.destroy_container node vmid true
      | qemu ↦ Request.destroy_vm node vmid true
    ])
    else if action.op == codes "delete_snapshot"
    then (do
      snapname ← recorded action action.snapname (codes "snapname")
      ok (Request.delete_snapshot node kind vmid snapname))
    else if action.op == codes "rollback_snapshot"
    then (do
      snapname ← recorded action action.snapname (codes "snapname")
      ok (Request.rollback_snapshot node kind vmid snapname))
    else if action.op == codes "delete_backup"
    then (do
      storage ← recorded action action.storage (codes "storage")
      volid ← recorded action action.volid (codes "volid")
      storage_node ← recorded action action.storage_node (codes "storage_node")
      require_backup_owner world storage_node volid vmid
      ok (delete_volume storage_node storage volid))
    else if action.op == codes "delete_iso"
    then (do
      storage ← recorded action action.storage (codes "storage")
      volid ← recorded action action.volid (codes "volid")
      storage_node ← recorded action action.storage_node (codes "storage_node")
      ok (delete_volume storage_node storage volid))
    else if action.op == codes "restore_backup"
    then (do
      volid ← recorded action action.volid (codes "volid")
      require_backup_owner world node volid vmid
      ok (Request.restore_backup node kind vmid volid true))
    else if action.op == codes "migrate"
    then (do
      target_node ← recorded action action.target_node (codes "target_node")
      ok (Request.migrate_guest node kind vmid target_node action.online action.with_local_disks))
    else if action.op == codes "update_vm_config"
    then (do
      entries ← ok_or action.config (malformed (action.op ++ codes " action is missing config"))
      ok (Request.update_vm_config node vmid entries))
    else err (malformed (codes "unknown destructive operation '" ++ (action.op ++ codes "'")))

-- `data.as_str().unwrap_or_default()`
abbrev or_default : Option Text → Text
or_default none = []
or_default (some text) = text

-- The answer_to to a request: a deleted volume may come without a handle.
unfoldable pub answer_to : World → Request → Result Text ProxmoxError
answer_to world (delete_volume node storage volid) = do
  data' ← world.delete_volume_reply node storage volid
  ok (or_default (as_str data'))
answer_to world request = world.send request

unfoldable pub execute_destructive :
    World → DestroyAction → GuestType → Text → ℕ → Result Text ProxmoxError × List Effect
unfolding choose_request answer_to
execute_destructive world action kind node vmid =
    elim (choose_request world action kind node vmid) [
      | err error ↦ (err error, [])
      | ok request ↦ (answer_to world request, sent request ∷ [])
    ]
