-- ===== src/HaRule.antt =====
-- crates/rust-proxmoxmcp/src/server/ha_change_set.rs: the plan of a change of an HA rule; and the ids
-- of its resources (crates/rust-proxmoxmcp-core/src/ha_rules.rs). A refusal is the constructor of its
-- cause.
pub mod Forms
pub mod Build
pub mod Built
pub mod Ready
pub mod Touched
pub mod Guests
pub mod Allowed
use rustproxmoxmcp.Prelude.{
  ℕ, Bool, true, false, not, ◌&&◌, ◌||◌, Option, none, some, List, [], ◌∷◌, ◌++◌, all, any,
  is_empty, if◌then◌else◌, Result, ok, err, ◌>>=◌, ◌>>◌, ok_or, map_err, refuse_if,
}
use rustproxmoxmcp.Text.{Text, codes, ◌==◌, is_digit, split, split_once}
use rustproxmoxmcp.Error.{ProxmoxError, malformed}
use rustproxmoxmcp.Volume.{validate_path_segment}

pub record PlanHaRuleArgs : Type 0 where
  pub cluster : Text
  pub rule : Text
  pub op : Text
  pub rule_type : Option Text
  pub resources : Option (List Text)
  pub services : Option (List Text)
  pub nodes : Option Text
  pub affinity : Option Text
  pub strict : Option Bool
  pub comment : Option Text
  pub disable : Option Bool

-- `default_ha_rule_op`
unfoldable pub default_ha_rule_op : Text
default_ha_rule_op = codes "create"

pub record HaRuleAction : Type 0 where
  pub op : Text
  pub cluster : Text
  pub rule : Text
  pub rule_type : Option Text
  pub resources : Option (List Text)
  pub nodes : Option Text
  pub affinity : Option Text
  pub strict : Option Bool
  pub comment : Option Text
  pub disable : Option Bool

pub data HaRefusal : Type 0 where
  bad_rule bad_service bad_node : ProxmoxError → HaRefusal
  unknown_operation not_taken required bad_rule_type bad_affinity unnamed_node bad_priority :
      Text → HaRefusal
  out_of_range : Text → HaRefusal
  both_given no_resources no_nodes no_change unreadable_resources : HaRefusal

unfoldable pub ha_rule_device : Text → Text → Text
ha_rule_device cluster rule = cluster ++ (codes "/ha-rule:" ++ rule)

unfoldable pub tool_for_ha_op : Text → Option Text
tool_for_ha_op op =
    if op == codes "create"
    then some (codes "create_ha_rule")
    else if op == codes "update"
    then some (codes "update_ha_rule")
    else if op == codes "delete"
    then some (codes "delete_ha_rule")
    else none

-- `validate_service_id`
unfoldable pub validate_service_id : Text → Result (Unit {0}) ProxmoxError
validate_service_id service = do
  (prefix, id) ← ok_or (split_once b':' service) (
      malformed (codes "service '" ++ (service ++ codes "' is not in vm:<vmid> or ct:<vmid> form")))
  refuse_if (not (prefix == codes "vm") && not (prefix == codes "ct")) (
      malformed (
        codes "service '"
        ++ (service ++ (codes "' has prefix '" ++ (prefix ++ codes "', expected 'vm' or 'ct'")))))
  refuse_if (is_empty id || not (all is_digit id))
      (malformed (codes "service '" ++ (service ++ codes "' does not name a numeric vmid")))

abbrev pub is_some : {A : Type 0} → Option A → Bool
is_some none = false
is_some (some a) = true

unfoldable pub merge_resources_alias : PlanHaRuleArgs → Result (Option (List Text)) HaRefusal
merge_resources_alias args = elim args.resources [
  | some resources ↦ if is_some args.services then err both_given else ok (some resources)
  | none ↦ ok args.services
]

unfoldable pub normalise_rule_type : Text → Text
normalise_rule_type rule_type =
    if rule_type == codes "location"
    then codes "node-affinity"
    else if rule_type == codes "colocation"
    then codes "resource-affinity"
    else rule_type

abbrev pub lacks_resources : Option (List Text) → Bool
lacks_resources none = true
lacks_resources (some resources) = is_empty resources

abbrev pub name_if : Bool → Text → List Text
name_if true name = name ∷ []
name_if false name = []

unfoldable pub missing_for_type : HaRuleAction → List Text
missing_for_type action = elim action.rule_type [
  | none ↦ []
  | some t ↦
      name_if (t == codes "node-affinity" && not (is_some action.nodes)) (codes "nodes")
      ++ name_if (t == codes "resource-affinity" && not (is_some action.affinity))
          (codes "affinity")
]

unfoldable pub missing_required_ha_fields : HaRuleAction → List Text
unfolding missing_for_type
missing_required_ha_fields action =
    if action.op == codes "create"
    then name_if (not (is_some action.rule_type)) (codes "rule_type")
      ++ (name_if (lacks_resources action.resources) (codes "resources") ++ missing_for_type action)
    else []
