-- ===== src/Apply/Commit.antt =====
-- crates/rust-proxmoxmcp/src/server/mod.rs, `apply_change_set`: from the claim to the answer.
use rustproxmoxmcp.Prelude.{
  ℕ, Bool, true, false, Option, none, some, List, [], ◌∷◌, ◌++◌, is_empty, if◌then◌else◌, Result,
  ok, err,
}
use rustproxmoxmcp.Text.{Text}
use rustproxmoxmcp.Error.{
  ProxmoxError, http, api, unauthorized, denied, not_found, malformed, config, unknown_cluster,
  to_string,
}
use rustproxmoxmcp.Resolve.{GuestIndex}
use rustproxmoxmcp.Task.{parse, succeeded, failed, classify_exit_status}
use rustproxmoxmcp.ChangeSet.{ChangeSet, ChangeSetState}
use rustproxmoxmcp.Server.{
  ProxmoxServer, Caller, ToolError, core, not_claimed, no_evidence, malformed_upid, poll_failed,
  task_failed,
}
use rustproxmoxmcp.Apply.{
  World, Effect, claimed, intended, receipted, stored, logged, execute_destructive,
}
use rustproxmoxmcp.Apply.Checks.{Cleared, check_apply}

-- The answer: a volume that was deleted at once, or a task with its exit status.
pub data Applied : Type 0 where
  synchronous : Applied
  finished : Text → Text → Applied

-- A change set as it is stored at the end.
unfoldable pub settle : ChangeSet → ChangeSetState → ChangeSet
settle change state = record change { state = state; task_id = none }

-- `if let Err(error) = … { tracing::error!(…) }`
abbrev pub log_failure : Result (Unit {0}) Text → List Effect
log_failure (ok u) = []
log_failure (err error) = logged error ∷ []

-- `if let Some(recorder) = &self.evidence && let Err(error) = recorder.result_receipt(...)`
unfoldable pub receipt : World → Bool → Text → List Effect
receipt world done detail =
    if world.has_evidence
    then receipted done detail ∷ log_failure (world.result_receipt done detail)
    else []

-- `if let Err(error) = self.coordinator.update_change_set(record).await`
unfoldable pub store : World → ChangeSet → List Effect
store world change = stored change ∷ log_failure (world.update_change_set change)

-- The cluster answered, and refused.
unfoldable pub is_definitive : ProxmoxError → Bool
is_definitive (api status text) = true
is_definitive unauthorized = true
is_definitive (denied why) = true
is_definitive (not_found what) = true
is_definitive (http error) = false
is_definitive (malformed why) = false
is_definitive (config why) = false
is_definitive (unknown_cluster name) = false

-- What follows a request that failed. Whether the change set is stored is not looked at
-- (`let _ = …`).
unfoldable pub after_failure : World → ChangeSet → ProxmoxError → List Effect
unfolding receipt is_definitive
after_failure world change error =
    if is_definitive error
    then receipt world false (to_string error)
      ++ (stored (record change { state = ChangeSetState.failed }) ∷ [])
    else []

-- What follows a task that ended.
unfoldable pub after_task : World → ChangeSet → Text → Text → Result Applied ToolError × List Effect
unfolding receipt store settle
after_task world change upid exitstatus = elim (classify_exit_status exitstatus) [
  | succeeded ↦ (
    ok (finished upid exitstatus),
    receipt world true [] ++ store world (settle change ChangeSetState.applied),
  )
  | failed text ↦ (
    err (task_failed text),
    receipt world false exitstatus ++ store world (settle change ChangeSetState.failed),
  )
]

-- What follows a request that was answered with a handle.
unfoldable pub follow_task : World → ChangeSet → Text → Result Applied ToolError × List Effect
unfolding after_task store
follow_task world change upid = elim (parse upid) [
  | err e ↦ (err (malformed_upid upid), [])
  | ok handle ↦ elim (world.poll handle.node upid) [
    | err e ↦ (err (poll_failed e), store world (record change { task_id = some upid }))
    | ok exitstatus ↦
        let (result, effects) = after_task world change upid exitstatus in
        (result, store world (record change { task_id = some upid }) ++ effects)
  ]
]

unfoldable pub after_answer :
    World → ChangeSet → Result Text ProxmoxError → Result Applied ToolError × List Effect
unfolding after_failure follow_task receipt store settle
after_answer world change (err error) = (err (core error), after_failure world change error)
after_answer world change (ok upid) =
    if is_empty upid
    then (
      ok synchronous,
      receipt world true [] ++ store world (settle change ChangeSetState.applied),
    )
    else follow_task world change upid

unfoldable pub execute : World → Cleared → ℕ → ChangeSet → Result Applied ToolError × List Effect
unfolding after_answer
execute world cleared vmid change =
    let (answered, requests) =
      execute_destructive world cleared.action cleared.guest.type cleared.guest.node vmid in
    let (result, effects) = after_answer world change answered in (result, requests ++ effects)

-- From the record of the intent on: without a recorder there is none, and a record that fails puts
-- an end to the call.
unfoldable pub intend : World → Cleared → ℕ → ChangeSet → Result Applied ToolError × List Effect
unfolding execute
intend world cleared vmid change =
    let (result, effects) = execute world cleared vmid change in
    if world.has_evidence
    then elim world.apply_intent [
      | err error ↦
          let abandoned : ChangeSet = record change { state = ChangeSetState.failed } in
          (err (no_evidence error (world.update_change_set abandoned)), stored abandoned ∷ [])
      | ok u ↦ (result, intended change.id ∷ effects)
    ]
    else (result, effects)

unfoldable pub commit : World → Cleared → ℕ → Result Applied ToolError × List Effect
unfolding intend
commit world cleared vmid = elim (world.claim cleared.change_set.id cleared.change_set.device) [
  | err error ↦ (err (not_claimed error), [])
  | ok change ↦
      let (result, effects) = intend world cleared vmid change in
      (result, claimed change.id ∷ effects)
]

-- `apply_change_set`: what it answers, its effects in their order, and the index that it leaves.
unfoldable pub apply_change_set :
    ProxmoxServer
    → World
    → GuestIndex
    → Option Caller
    → Text
    → ℕ
    → Text
    → (Result Applied ToolError × List Effect) × GuestIndex
unfolding commit
apply_change_set server world index caller cluster vmid change_set_id =
    let (checked, index') = check_apply server world index caller cluster vmid change_set_id in
    (elim checked [ err e ↦ (err e, []) | ok cleared ↦ commit world cleared vmid ], index')
