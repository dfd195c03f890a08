-- ===== src/Examples/Changes.antt =====
-- Runs of the theorems on change sets and on the handlers.
use rustproxmoxmcp.Prelude.{
  ◌≡◌, refl, true, false, none, some, [], ◌∷◌, here, there, Result, ok, err, is_ok,
}
use rustproxmoxmcp.Text.{Text, codes, ◌==◌}
use rustproxmoxmcp.Json.{object, field, string, end}
use rustproxmoxmcp.Error.{ProxmoxError}
use rustproxmoxmcp.Resolve.{new}
use rustproxmoxmcp.Plan.{DestroyAction}
use rustproxmoxmcp.ChangeSet.{ChangeSet, ChangeSetState, Request, destroy_vm}
use rustproxmoxmcp.Apply.{World, sent, receipted, stored}
use rustproxmoxmcp.Apply.Checks.{Cleared}
use rustproxmoxmcp.Apply.Cleared.{IsCleared}
use rustproxmoxmcp.Apply.{claimed, intended, answer_to, execute_destructive, choose_request}
use rustproxmoxmcp.Apply.Commit.{
  apply_change_set, commit, intend, execute, after_answer, follow_task, after_task, after_failure,
  receipt, store, settle, is_definitive, finished,
}
use rustproxmoxmcp.Apply.Settled.{
  IsFinished, lost, apply_change_set-settled, apply_change_set-indeterminate,
}
use rustproxmoxmcp.Error.{http}
use rustproxmoxmcp.Task.{classify_exit_status, part}
use rustproxmoxmcp.Task
use rustproxmoxmcp.Apply.Sent.{IsSentFor, apply_change_set_sent}
use rustproxmoxmcp.Apply.Receipts.{reports, apply_change_set-reports}
use rustproxmoxmcp.Map.{lookup, insert, remove}
use rustproxmoxmcp.Text.{split, split_once, contains, trim, trim_start, trim_end, is_whitespace}
use rustproxmoxmcp.Text.Number.{parse_u32, digits_value}
use rustproxmoxmcp.Json.{get, as_str, as_array, as_u64}
use rustproxmoxmcp.Selector.{parse, parse_vmid_term, matches}
use rustproxmoxmcp.Tier.{action}
use rustproxmoxmcp.Grant.{allows_guest, allows_action, is_unrestricted_guest_scope}
use rustproxmoxmcp.Guest.{fetch_guests, fetched_guest, facts, parse_tags}
use rustproxmoxmcp.Waiver.{matching}
use rustproxmoxmcp.Protect.{protection_of, destructive_allowed, pinned, is_protected}
use rustproxmoxmcp.Resolve.{resolve, authorize, lookup_fresh, invalidate_cluster, publish}
use rustproxmoxmcp.Plan.{
  tool_for_op, missing_required_fields, required_fields, require_unrestricted_scope_for_delete_iso,
}
use rustproxmoxmcp.ChangeSet.{state_of}
use rustproxmoxmcp.Server.{
  authorize_with_override, override_for, override_applies, observed_protection, client_for,
  resolve_grant,
}
use rustproxmoxmcp.Apply.Checks.{
  check_apply, open_change_set, check_opened, check_record, recheck_values, recheck_segments,
  first_action, op_of,
}
use rustproxmoxmcp.Examples.{server, alice, moment, web}

abbrev pub destroy : DestroyAction
destroy = record {
  op = codes "destroy_guest";
  cluster = codes "lab";
  vmid = 650;
  snapname = none;
  storage = none;
  volid = none;
  storage_node = none;
  target_node = none;
  online = false;
  with_local_disks = false;
  config = none;
}

abbrev pub change : ChangeSet
change = record {
  id = codes "cs-1";
  device = codes "lab/650";
  owner = codes "bob";
  state = ChangeSetState.approved;
  expected_candidate_fingerprint = codes "abc";
  actions = object (field (codes "op") (string (codes "destroy_guest")) end) ∷ [];
  preview = some (codes "DESTROY");
  task_id = none;
}

abbrev pub upid : Text
upid = codes "UPID:pve2:0:0:0:qmdestroy:650:mcp@pve:"

abbrev pub world_with : (Request → Result Text ProxmoxError) → World
world_with send = record {
  change_set = λ id device. ok change;
  first = moment;
  second = moment;
  config_state = λ guest. ok (record { config_digest = codes "abc"; disks = [] });
  fingerprint = λ state. state.config_digest;
  read_action = λ value. ok destroy;
  expand_segment = λ segment. ok segment;
  claim = λ id device. ok (record change { state = ChangeSetState.applying });
  has_evidence = true;
  apply_intent = ok tt;
  result_receipt = λ done detail. ok tt;
  update_change_set = λ stored. ok tt;
  backup_owner = λ node volid. ok 650;
  send = send;
  delete_volume_reply = λ node storage volid. ok (string upid);
  poll = λ node handle. ok (codes "OK");
}

abbrev pub world : World
world = world_with (λ _. ok upid)

checked :
    (send : Request → Result Text ProxmoxError)
    → (check_apply server (world_with send) (new 60) alice (codes "lab") 650 (codes "cs-1")).0
      ≡ ok (record { change_set = change; guest = web; action = destroy })
unfolding check_apply open_change_set check_opened check_record ◌==◌ get as_str
    authorize_with_override authorize resolve lookup_fresh lookup invalidate_cluster remove
    fetch_guests as_array publish insert fetched_guest allows_guest parse parse_vmid_term parse_u32
    digits_value split_once facts allows_action override_for override_applies protection_of
    destructive_allowed matching contains pinned observed_protection is_protected tool_for_op
    missing_required_fields required_fields require_unrestricted_scope_for_delete_iso
    is_unrestricted_guest_scope state_of recheck_values recheck_segments first_action op_of
    client_for resolve_grant trim trim_start trim_end is_whitespace parse_tags split as_u64 matches
    action
checked send = refl

abbrev cleared : Cleared
cleared = record { change_set = change; guest = web; action = destroy }

abbrev applying : ChangeSet
applying = record change { state = ChangeSetState.applying }

abbrev request : Request
request = destroy_vm (codes "pve2") 650 true

committed : commit world cleared 650 ≡ (
  ok (finished upid (codes "OK")),
  claimed (codes "cs-1")
      ∷ intended (codes "cs-1")
      ∷ sent request
      ∷ stored (record applying { task_id = some upid })
      ∷ receipted true []
      ∷ stored (record change { state = ChangeSetState.applied })
      ∷ [],
)
unfolding commit intend execute execute_destructive choose_request answer_to after_answer
    follow_task after_task receipt store settle classify_exit_status rustproxmoxmcp.Task.parse part
    split ◌==◌
committed = refl

ran :
    (send : Request → Result Text ProxmoxError)
    → (apply_change_set server (world_with send) (new 60) alice (codes "lab") 650 (codes "cs-1")).0
      ≡ commit (world_with send) cleared 650
unfolding apply_change_set commit
ran send = rw (apply_change_set, checked send) refl

apply_change_set_sent_example :
    (c : Cleared) × IsCleared server world alice (codes "lab") 650 (codes "cs-1") c
    × IsSentFor world c 650 request
        (apply_change_set server world (new 60) alice (codes "lab") 650 (codes "cs-1")).0.1
apply_change_set_sent_example =
    apply_change_set_sent server world (new 60) alice (codes "lab") 650 (codes "cs-1") request
      (rw (ran (λ _. ok upid), committed) (there (there here)))

apply_change_set-reports_example :
    is_ok (apply_change_set server world (new 60) alice (codes "lab") 650 (codes "cs-1")).0.0 ≡ true
apply_change_set-reports_example =
    apply_change_set-reports server world (new 60) alice (codes "lab") 650 (codes "cs-1")
      (receipted true []) true (λ id device c e. cc)
      (rw (ran (λ _. ok upid), committed) (there (there (there (there here))))) refl

apply_change_set-settled_example :
    IsFinished world
      (apply_change_set server world (new 60) alice (codes "lab") 650 (codes "cs-1")).0.1
apply_change_set-settled_example =
    apply_change_set-settled server world (new 60) alice (codes "lab") 650 (codes "cs-1")
      (rw (ran (λ _. ok upid), committed) refl)

-- The same world, but the request is lost.
abbrev timeout : Request → Result Text ProxmoxError
timeout _ = err (http (codes "timeout"))

unsent :
    (commit (world_with timeout) cleared 650).1
    ≡ claimed (codes "cs-1") ∷ intended (codes "cs-1") ∷ sent request ∷ []
unfolding commit intend execute execute_destructive choose_request answer_to after_answer
    after_failure is_definitive ◌==◌
unsent = refl

apply_change_set-indeterminate_example : reports (sent request) ≡ none
unfolding answer_to
apply_change_set-indeterminate_example =
    apply_change_set-indeterminate server (world_with timeout) (new 60) alice (codes "lab") 650
      (codes "cs-1") request (http (codes "timeout")) (sent request)
      (rw (ran timeout, unsent) (there (there here))) refl (lost (codes "timeout"))
      (rw (ran timeout, unsent) (there (there here)))
