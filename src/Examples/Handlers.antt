-- ===== src/Examples/Handlers.antt =====
-- Runs of the theorems on the handlers of the low tier, on creations and on HA rules.
use rustproxmoxmcp.Prelude.{
  ℕ, ◌≡◌, ◌↔◌, ◌⊎◌, refl, inl, true, false, ◌||◌, Option, none, some, List, [], ◌∷◌, ◌++◌, Has,
  here, Result, ok, err,
}
use rustproxmoxmcp.Text.{
  Text, codes, ◌==◌, split, split_once, contains, trim, trim_start, trim_end, is_whitespace,
  has_substring, to_ascii_lowercase,
}
use rustproxmoxmcp.Text.Number.{parse_u32, digits_value}
use rustproxmoxmcp.Map.{lookup, insert, remove}
use rustproxmoxmcp.Json.{Json, get, as_str, as_array, as_u64}
use rustproxmoxmcp.Error.{ProxmoxError, api}
use rustproxmoxmcp.Selector.{same_type, qemu, parse, parse_vmid_term, matches}
use rustproxmoxmcp.Grant.{
  ProxmoxGrant, ProxmoxAction, allows_guest, allows_action, allows_new_vmid,
  is_unrestricted_guest_scope,
}
use rustproxmoxmcp.Guest.{fetch_guests, fetched_guest, facts, parse_tags}
use rustproxmoxmcp.Tier.{action, interrupts_service, interrupting_tools}
use rustproxmoxmcp.Protect.{
  protection_of, destructive_allowed, pinned, is_protected, creation_allowed,
}
use rustproxmoxmcp.Resolve.{
  new, resolve, authorize, lookup_fresh, invalidate_cluster, publish, intent_destructive,
}
use rustproxmoxmcp.Resolve.Cache.{started}
use rustproxmoxmcp.VmConfig.{VmConfig}
use rustproxmoxmcp.Volume.{validate_path_segment}
use rustproxmoxmcp.Server.{
  Caller, authorize_with_override, override_for, override_applies, client_for, resolve_grant,
}
use rustproxmoxmcp.Server.Fresh.{authorize_with_override-invalidate_cluster}
use rustproxmoxmcp.Server.Low.{
  LifecycleVerb, LifecycleCall, serve_lifecycle, admit_caller, index_for, check_lifecycle,
  choose_lifecycle, gate_direct_commit,
}
use rustproxmoxmcp.Server.Lifecycle.{IsLifecycle, serve_lifecycle-IsLifecycle}
use rustproxmoxmcp.Server.Creation.{
  authorize_creation, admit_creation, check_new_vmid, require_absent, authorize_backup_owner,
  judge_owner,
}
use rustproxmoxmcp.Server.Free.{
  IsFree, IsReadable, authorize_creation-IsFree, authorize_backup_owner-IsReadable,
}
use rustproxmoxmcp.CreateConfig.{reject_unsafe_config, disk_value_is_new_allocation}
use rustproxmoxmcp.CreateConfig.Safe.{IsSafeConfig, reject_unsafe_config_iff}
use rustproxmoxmcp.CreateConfig.Values.{disk_value_is_new_allocation-volume}
use rustproxmoxmcp.HaRule.{
  PlanHaRuleArgs, HaRuleAction, merge_resources_alias, normalise_rule_type, validate_service_id,
}
use rustproxmoxmcp.HaRule.Build.{
  build_ha_rule_action, build_create_or_update, plan_rule_type, check_resources, check_created,
  validate_nodes_list, validate_node_entry,
}
use rustproxmoxmcp.HaRule.Ready.{IsHaPlan, build_ha_rule_action-IsHaPlan}
use rustproxmoxmcp.HaRule.Touched.{guests_touched, existing_ids, vmid_of_service, vmids_of}
use rustproxmoxmcp.HaRule.Guests.{
  Moments, authorize_ha_rule_guests, check_ha_rule, authorize_vmids, authorize_vmid,
  authorize_resolved_vmid, require_ha_rule_destructive_tier,
}
use rustproxmoxmcp.HaRule.Allowed.{IsAllowed, authorize_ha_rule_guests-IsAllowed}
use rustproxmoxmcp.HaRule.Forms.{fetch_rule, fetch_rule-none_iff}
use rustproxmoxmcp.Examples.{lab, band, attempt, server, alice, moment}

abbrev operator : Option Caller
operator = some (record {
  token_name = codes "carol";
  grant = some (record {
    guests = codes "vmid:600-699" ∷ [];
    actions = ProxmoxAction.read ∷ ProxmoxAction.low ∷ [];
  });
})

abbrev stop_call : LifecycleCall
stop_call = record { node = codes "pve2"; kind = qemu; vmid = 650; verb = LifecycleVerb.stop }

chosen :
    (choose_lifecycle server
      (new 60)
      moment
      moment
      operator
      (codes "stop_vm")
      LifecycleVerb.stop
      qemu
      (codes "lab")
      650).0
    ≡ ok stop_call
unfolding choose_lifecycle admit_caller index_for check_lifecycle gate_direct_commit same_type ◌==◌
    get as_str authorize_with_override authorize resolve lookup_fresh lookup invalidate_cluster
    remove fetch_guests as_array as_u64 publish insert fetched_guest allows_guest parse
    parse_vmid_term parse_u32 digits_value split_once facts allows_action override_for
    override_applies protection_of destructive_allowed contains is_protected client_for
    resolve_grant trim trim_start trim_end is_whitespace parse_tags split matches action
    interrupts_service interrupting_tools pinned
chosen = refl

was_sent :
    Has stop_call
      (serve_lifecycle server
        (λ call. ok [])
        (new 60)
        moment
        moment
        operator
        (codes "stop_vm")
        LifecycleVerb.stop
        qemu
        (codes "lab")
        650).0.1
unfolding serve_lifecycle
was_sent = rw (serve_lifecycle, chosen) here

serve_lifecycle-IsLifecycle_example :
    IsLifecycle server moment moment operator
      (codes "stop_vm")
      LifecycleVerb.stop
      qemu
      (codes "lab")
      650
      (new 60)
      stop_call
serve_lifecycle-IsLifecycle_example =
    serve_lifecycle-IsLifecycle server moment moment operator (codes "stop_vm") LifecycleVerb.stop
      qemu (codes "lab") 650 (λ call. ok []) (new 60) stop_call (started 60) was_sent

authorize_creation-IsFree_example :
    IsFree server (new 60) moment operator (codes "create_vm") (codes "lab") 651 lab
unfolding authorize_creation admit_creation admit_caller check_new_vmid require_absent ◌==◌ get
    as_str resolve lookup_fresh lookup invalidate_cluster remove fetch_guests as_array as_u64
    publish insert fetched_guest allows_new_vmid parse parse_vmid_term parse_u32 digits_value
    split_once allows_action client_for resolve_grant trim trim_start trim_end is_whitespace
    parse_tags split creation_allowed pinned
authorize_creation-IsFree_example =
    authorize_creation-IsFree server (new 60) moment operator (codes "create_vm") (codes "lab") 651
      lab refl

authorize_backup_owner-IsReadable_example :
    IsReadable server lab
      (codes "lab")
      650
      band
      1000
      none
      (resolve (new 60) 5 (codes "lab") 650 moment.reply).0
unfolding authorize_backup_owner judge_owner ◌==◌ get as_str resolve lookup_fresh lookup
    fetch_guests as_array as_u64 publish insert fetched_guest allows_guest parse parse_vmid_term
    parse_u32 digits_value split_once facts protection_of destructive_allowed contains is_protected
    trim trim_start trim_end is_whitespace parse_tags split matches pinned
authorize_backup_owner-IsReadable_example =
    authorize_backup_owner-IsReadable server lab (new 60) moment (codes "lab") 650 band none refl

authorize_with_override-invalidate_cluster_example :
    (authorize_with_override server lab
      (invalidate_cluster (codes "lab") (new 60))
      moment
      moment
      (codes "lab")
      650
      band
      attempt
      intent_destructive).0
    ≡ (authorize_with_override server lab
        (invalidate_cluster (codes "lab") (resolve (new 60) 5 (codes "lab") 650 moment.reply).1)
        moment
        moment
        (codes "lab")
        650
        band
        attempt
        intent_destructive).0
unfolding resolve publish lookup_fresh lookup fetch_guests as_array
authorize_with_override-invalidate_cluster_example =
    authorize_with_override-invalidate_cluster server lab (new 60)
      (resolve (new 60) 5 (codes "lab") 650 moment.reply).1 moment moment (codes "lab") 650 band
      attempt intent_destructive refl

abbrev create_config : VmConfig
create_config = (codes "cores", codes "4") ∷ (codes "scsi0", codes "local-lvm:32") ∷ []

reject_unsafe_config_iff_example :
    (reject_unsafe_config create_config ≡ ok tt) ↔ IsSafeConfig create_config
reject_unsafe_config_iff_example = reject_unsafe_config_iff create_config

disk_value_is_new_allocation-volume_example :
    disk_value_is_new_allocation (codes "local:32,import-from=lvm:vm-905-disk-0") ≡ false
disk_value_is_new_allocation-volume_example =
    disk_value_is_new_allocation-volume (codes "local:32,import-from=lvm:") (codes "vm-")
      (codes "905") (codes "disk-0") (inl refl) refl refl

abbrev rule_args : PlanHaRuleArgs
rule_args = record {
  cluster = codes "lab";
  rule = codes "together";
  op = codes "create";
  rule_type = some (codes "location");
  resources = some (codes "vm:650" ∷ []);
  services = none;
  nodes = some (codes "pve2:1");
  affinity = none;
  strict = none;
  comment = none;
  disable = none;
}

abbrev rule_action : HaRuleAction
rule_action = record {
  op = codes "create";
  cluster = codes "lab";
  rule = codes "together";
  rule_type = some (codes "node-affinity");
  resources = some (codes "vm:650" ∷ []);
  nodes = some (codes "pve2:1");
  affinity = none;
  strict = none;
  comment = none;
  disable = none;
}

build_ha_rule_action-IsHaPlan_example : IsHaPlan (λ segment. ok segment) rule_args rule_action
unfolding build_ha_rule_action build_create_or_update plan_rule_type merge_resources_alias
    check_resources check_created normalise_rule_type validate_service_id validate_nodes_list
    validate_node_entry validate_path_segment ◌==◌ split split_once
build_ha_rule_action-IsHaPlan_example =
    build_ha_rule_action-IsHaPlan (λ segment. ok segment) rule_args rule_action refl

abbrev moments : Moments
moments vmid = (moment, moment)

authorize_ha_rule_guests-IsAllowed_example :
    (grant : ProxmoxGrant) × (vmids : List ℕ) × (resolve_grant alice ≡ ok grant)
    × (allows_action grant ProxmoxAction.destructive ≡ true)
    × (((rule_action.op == codes "update" || rule_action.op == codes "delete") ≡ false)
        ⊎ (is_unrestricted_guest_scope grant ≡ true))
    × (guests_touched rule_action none ≡ ok vmids)
    × ((vmid : ℕ)
        → Has vmid vmids
        → IsAllowed server lab (codes "lab") alice rule_action grant 1000 moments vmid)
unfolding authorize_ha_rule_guests check_ha_rule authorize_vmids authorize_vmid
    authorize_resolved_vmid require_ha_rule_destructive_tier guests_touched existing_ids vmids_of
    vmid_of_service validate_service_id ◌==◌ get as_str authorize resolve lookup_fresh lookup
    invalidate_cluster remove fetch_guests as_array as_u64 publish insert fetched_guest allows_guest
    parse parse_vmid_term parse_u32 digits_value split_once facts allows_action override_for
    override_applies protection_of destructive_allowed contains is_protected resolve_grant trim
    trim_start trim_end is_whitespace parse_tags split matches action pinned
authorize_ha_rule_guests-IsAllowed_example =
    authorize_ha_rule_guests-IsAllowed server lab (codes "lab") alice rule_action none 1000 moments
      (new 60) refl

fetch_rule-none_iff_example :
    (fetch_rule (err (api 500 (codes "no such HA rule 'a'"))) (codes "a") ≡ ok none) ↔ (
      (status : ℕ) × (message : Text) × (◌≡◌ {A = Result Json ProxmoxError}
        (err (api 500 (codes "no such HA rule 'a'")))
        (err (api status message)))
      × ((status ≡ 404)
          ⊎ ((status ≡ 500)
              × (has_substring
                    (to_ascii_lowercase message)
                    (codes "no such ha rule '" ++ (to_ascii_lowercase (codes "a") ++ codes "'"))
                  ≡ true))))
fetch_rule-none_iff_example =
    fetch_rule-none_iff (err (api 500 (codes "no such HA rule 'a'"))) (codes "a")
