-- ===== src/HaRule/Build.antt =====
-- crates/rust-proxmoxmcp/src/server/ha_change_set.rs, `build_ha_rule_action`: the action that a plan
-- of a change of an HA rule records.
use rustproxmoxmcp.Prelude.{
  Bool, true, false, not, ◌&&◌, ◌||◌, Option, none, some, List, [], ◌∷◌, all, is_empty,
  if◌then◌else◌, Result, ok, err, ◌>>=◌, ◌>>◌, ok_or, map_err, refuse_if,
}
use rustproxmoxmcp.Text.{Text, codes, ◌==◌, is_digit, split, split_once}
use rustproxmoxmcp.Volume.{validate_path_segment}
use rustproxmoxmcp.HaRule.{
  PlanHaRuleArgs, HaRuleAction, HaRefusal, bad_rule, bad_service, bad_node, unknown_operation,
  not_taken, required, bad_rule_type, bad_affinity, unnamed_node, bad_priority, no_resources,
  no_nodes, no_change, validate_service_id, is_some, merge_resources_alias, normalise_rule_type,
}

-- The loop over the ids, with an early return.
abbrev pub validate_services : List Text → Result (Unit {0}) HaRefusal
validate_services [] = ok tt
validate_services (id ∷ ids) =
    let rest = validate_services ids in map_err bad_service (validate_service_id id) >> rest

-- The type that a plan records.
unfoldable pub plan_rule_type : PlanHaRuleArgs → Bool → Result (Option Text) HaRefusal
unfolding normalise_rule_type
plan_rule_type args is_create =
    if is_create
    then (do
      rule_type ← ok_or args.rule_type (required (codes "rule_type"))
      refuse_if
          (not (normalise_rule_type rule_type == codes "node-affinity")
            && not (normalise_rule_type rule_type == codes "resource-affinity"))
          (bad_rule_type rule_type)
      ok (some (normalise_rule_type rule_type)))
    else (do refuse_if (is_some args.rule_type) (not_taken (codes "rule_type")); ok none)

unfoldable pub check_resources : Bool → Option (List Text) → Result (Option (List Text)) HaRefusal
check_resources is_create (some resources) = do
  refuse_if (is_empty resources) no_resources
  validate_services resources
  ok (some resources)
check_resources is_create none = do refuse_if is_create (required (codes "resources")); ok none

unfoldable pub check_affinity : Text → Result (Unit {0}) HaRefusal
check_affinity affinity =
    refuse_if (not (affinity == codes "positive") && not (affinity == codes "negative"))
      (bad_affinity affinity)

abbrev pub when_some :
    Option Text → (Text → Result (Unit {0}) HaRefusal) → Result (Unit {0}) HaRefusal
when_some none check = ok tt
when_some (some text) check = check text

unfoldable pub build_delete : PlanHaRuleArgs → Result HaRuleAction HaRefusal
build_delete args = do
  refuse_if (is_some args.rule_type) (not_taken (codes "rule_type"))
  refuse_if (is_some args.nodes) (not_taken (codes "nodes"))
  refuse_if (is_some args.affinity) (not_taken (codes "affinity"))
  refuse_if (is_some args.resources || is_some args.services) (not_taken (codes "resources"))
  ok (record {
    op = codes "delete";
    cluster = args.cluster;
    rule = args.rule;
    rule_type = none;
    resources = none;
    nodes = none;
    affinity = none;
    strict = none;
    comment = none;
    disable = none;
  })

module _ (expand_segment : Text → Result Text Text) where
  -- One entry of the list: a node, with a priority or without.
  unfoldable pub validate_node_entry : Text → Result (Unit {0}) HaRefusal
  validate_node_entry entry =
      let node_name : Text = elim (split_once b':' entry) [
        | none ↦ entry
        | some (name, priority) ↦ name
      ] in
      do
        refuse_if (is_empty node_name) (unnamed_node entry)
        map_err bad_node (validate_path_segment expand_segment node_name (codes "nodes"))
        elim (split_once b':' entry) [
          | none ↦ ok tt
          | some (name, priority) ↦ refuse_if (not (all is_digit priority)) (bad_priority entry)
        ]

  abbrev pub validate_node_entries : List Text → Result (Unit {0}) HaRefusal
  validate_node_entries [] = ok tt
  validate_node_entries (entry ∷ entries) =
      let rest = validate_node_entries entries in validate_node_entry entry >> rest

  unfoldable pub validate_nodes_list : Text → Result (Unit {0}) HaRefusal
  unfolding validate_node_entry
  validate_nodes_list nodes = do
    refuse_if (is_empty nodes) no_nodes
    validate_node_entries (split b',' nodes)

  -- What a create must give for the type that it declares.
  unfoldable pub check_created : PlanHaRuleArgs → Option Text → Result (Unit {0}) HaRefusal
  unfolding validate_nodes_list check_affinity
  check_created args declared =
      if elim declared [ none ↦ false | some t ↦ t == codes "node-affinity" ]
      then (do
        refuse_if (is_some args.affinity) (not_taken (codes "affinity"))
        nodes ← ok_or args.nodes (required (codes "nodes"))
        validate_nodes_list nodes)
      else (do
        refuse_if (is_some args.nodes) (not_taken (codes "nodes"))
        affinity ← ok_or args.affinity (required (codes "affinity"))
        check_affinity affinity)

  unfoldable pub check_updated : PlanHaRuleArgs → Option (List Text) → Result (Unit {0}) HaRefusal
  unfolding validate_nodes_list check_affinity
  check_updated args resources = do
    when_some args.nodes validate_nodes_list
    when_some args.affinity check_affinity
    refuse_if
        (not (is_some resources)
          && not (is_some args.nodes)
          && not (is_some args.affinity)
          && not (is_some args.strict)
          && not (is_some args.comment)
          && not (is_some args.disable))
        no_change

  unfoldable pub build_create_or_update : PlanHaRuleArgs → Bool → Result HaRuleAction HaRefusal
  unfolding plan_rule_type merge_resources_alias check_resources check_created check_updated
  build_create_or_update args is_create = do
    rule_type ← plan_rule_type args is_create
    merged ← merge_resources_alias args
    resources ← check_resources is_create merged
    if is_create then check_created args rule_type else check_updated args resources
    ok (record {
      op = if is_create then codes "create" else codes "update";
      cluster = args.cluster;
      rule = args.rule;
      rule_type = rule_type;
      resources = resources;
      nodes = args.nodes;
      affinity = args.affinity;
      strict = args.strict;
      comment = args.comment;
      disable = args.disable;
    })

  unfoldable pub build_ha_rule_action : PlanHaRuleArgs → Result HaRuleAction HaRefusal
  unfolding build_create_or_update build_delete
  build_ha_rule_action args =
      map_err bad_rule (validate_path_segment expand_segment args.rule (codes "rule"))
      >> (if args.op == codes "create"
          then build_create_or_update args true
          else if args.op == codes "update"
          then build_create_or_update args false
          else if args.op == codes "delete"
          then build_delete args
          else err (unknown_operation args.op))
