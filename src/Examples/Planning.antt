-- ===== src/Examples/Planning.antt =====
-- Runs of the theorems on destructive plans that are recorded.
use rustproxmoxmcp.Prelude.{◌≡◌, refl, true, false, none, some, [], ◌∷◌, here, ok}
use rustproxmoxmcp.Text.{
  codes, ◌==◌, split, split_once, contains, trim, trim_start, trim_end, is_whitespace,
}
use rustproxmoxmcp.Text.Number.{parse_u32, digits_value, decimal}
use rustproxmoxmcp.Map.{lookup, insert, remove}
use rustproxmoxmcp.Json.{get, as_str, as_array, as_u64}
use rustproxmoxmcp.Selector.{parse, parse_vmid_term, matches, same_type}
use rustproxmoxmcp.Tier.{action}
use rustproxmoxmcp.Grant.{allows_guest, allows_action, is_unrestricted_guest_scope}
use rustproxmoxmcp.Guest.{fetch_guests, fetched_guest, facts, parse_tags}
use rustproxmoxmcp.Protect.{protection_of, destructive_allowed, pinned, is_protected}
use rustproxmoxmcp.Resolve.{new, resolve, authorize, lookup_fresh, invalidate_cluster, publish}
use rustproxmoxmcp.Volume.{validate_path_segment}
use rustproxmoxmcp.Plan.{
  PlanDestroyArgs, DestroyAction, build_destroy_action, build_snapshot, require_segment, require,
  bare, missing_required_fields, destroy_requires_a_stopped_guest, tool_for_op,
  require_unrestricted_scope_for_delete_iso,
}
use rustproxmoxmcp.ChangeSet.{state_of}
use rustproxmoxmcp.Server.{
  client_for, resolve_grant, authorize_with_override, override_for, override_applies,
}
use rustproxmoxmcp.Server.Low.{admit_caller}
use rustproxmoxmcp.Apply.Checks.{device_of, recheck_values, recheck_segments}
use rustproxmoxmcp.Apply.Planned.{check_record-build}
use rustproxmoxmcp.Planner.{
  PlanWorld, plan_destroy, check_admitted, check_plan, check_owner, check_migrate, plan_override,
  record_plan, waive,
}
use rustproxmoxmcp.Planner.Sound.{IsPlanned, plan_destroy-IsPlanned}
use rustproxmoxmcp.Examples.{server, alice}
use rustproxmoxmcp.Examples.Changes.{world}

abbrev snapshot_args : PlanDestroyArgs
snapshot_args = record {
  cluster = codes "lab";
  vmid = 650;
  op = codes "delete_snapshot";
  snapname = some (codes "old");
  storage = none;
  volid = none;
  storage_node = none;
  target_node = none;
  online = false;
  with_local_disks = false;
  config = [];
}

abbrev snapshot_action : DestroyAction
snapshot_action = record (bare snapshot_args) { snapname = some (codes "old") }

check_record-build_example :
    (missing_required_fields snapshot_action ≡ [])
    × (recheck_values snapshot_action ≡ ok tt)
    × (recheck_segments world snapshot_action ≡ ok tt)
unfolding build_destroy_action build_snapshot require_segment require validate_path_segment ◌==◌
check_record-build_example = check_record-build world snapshot_args snapshot_action refl

abbrev plan_world : PlanWorld
plan_world = record {
  world = world;
  node_names = ok (codes "pve2" ∷ []);
  preview = λ a state o. codes "DELETE SNAPSHOT";
  create = λ device a owner fingerprint. ok (codes "cs-2");
  is_read_back = true;
  store_preview = λ text. ok tt;
  waive_approval = ok tt;
}

plan_destroy-IsPlanned_example :
    IsPlanned server plan_world alice snapshot_args
      (codes "lab/650")
      (codes "alice")
      (codes "abc")
      snapshot_action
unfolding plan_destroy check_admitted check_plan check_owner check_migrate plan_override record_plan
    waive admit_caller client_for resolve_grant build_destroy_action build_snapshot require_segment
    require bare validate_path_segment ◌==◌ get as_str authorize_with_override authorize resolve
    lookup_fresh lookup invalidate_cluster remove fetch_guests as_array as_u64 publish insert
    fetched_guest allows_guest parse parse_vmid_term parse_u32 digits_value split_once facts
    allows_action override_for override_applies protection_of destructive_allowed contains pinned
    is_protected tool_for_op require_unrestricted_scope_for_delete_iso is_unrestricted_guest_scope
    state_of trim trim_start trim_end is_whitespace parse_tags split matches action
    destroy_requires_a_stopped_guest device_of same_type decimal
plan_destroy-IsPlanned_example =
    plan_destroy-IsPlanned server plan_world alice snapshot_args (new 60) (codes "lab/650")
      (codes "alice") (codes "abc") snapshot_action here
