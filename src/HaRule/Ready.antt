-- ===== src/HaRule/Ready.antt =====
-- What a plan of a change of an HA rule records
-- (crates/rust-proxmoxmcp/src/server/ha_change_set.rs, `build_ha_rule_action`).
use rustproxmoxmcp.Prelude.{
  ◌≡◌, refl, sym, ◌∙◌, inl, inr, Bool, true, false, some, is_empty, arith, Bool-cases, Result-cases,
  Result, ok, if◌then◌else◌,
}
use rustproxmoxmcp.Text.{Text, codes, ◌==◌}
use rustproxmoxmcp.Text.Equality.{eq_iff}
use rustproxmoxmcp.Volume.{validate_path_segment}
use rustproxmoxmcp.HaRule.{PlanHaRuleArgs, HaRuleAction, tool_for_ha_op, missing_required_ha_fields}
use rustproxmoxmcp.HaRule.Build.{build_create_or_update, build_delete, build_ha_rule_action}
use rustproxmoxmcp.HaRule.Built.{AreNamed, created}

create_called : tool_for_ha_op (codes "create") ≡ some (codes "create_ha_rule")
unfolding tool_for_ha_op ◌==◌
create_called = refl

update_called : tool_for_ha_op (codes "update") ≡ some (codes "update_ha_rule")
unfolding tool_for_ha_op ◌==◌
update_called = refl

module _ (expand_segment : Text → Result Text Text) where
  -- What a plan of an HA rule is: for the operation, the cluster and the rule that were asked for, with
  -- a rule id that can stand in a path, a tool for its operation, no field missing, and resources that
  -- each name a guest.
  pub record IsHaPlan (args : PlanHaRuleArgs) (action : HaRuleAction) : Type 0 where
    pub same_op : action.op ≡ args.op
    pub same_cluster : action.cluster ≡ args.cluster
    pub same_rule : action.rule ≡ args.rule
    pub usable : (path : Text) × (expand_segment args.rule ≡ ok path)
    pub callable : (tool : Text) × (tool_for_ha_op action.op ≡ some tool)
    pub complete : is_empty (missing_required_ha_fields action) ≡ true
    pub named : AreNamed action.resources

  plan_of :
      (args : PlanHaRuleArgs) (is_create : Bool) (action : HaRuleAction) (path tool : Text)
      → expand_segment args.rule ≡ ok path
      → (args.op == (if is_create then codes "create" else codes "update")) ≡ true
      → tool_for_ha_op (if is_create then codes "create" else codes "update") ≡ some tool
      → build_create_or_update expand_segment args is_create ≡ ok action
      → IsHaPlan args action
  plan_of args is_create action path tool expanded named called h =
      let (op, cluster, rule, resources, complete) =
        created expand_segment args is_create action h in
      record {
        same_op =
            op
            ∙ sym ((eq_iff args.op (if is_create then codes "create" else codes "update")).0 named);
        same_cluster = cluster;
        same_rule = rule;
        usable = (path, expanded);
        callable = (tool, rw op called);
        complete = complete;
        named = resources;
      }

  deleted :
      (args : PlanHaRuleArgs) (action : HaRuleAction) (path : Text)
      → expand_segment args.rule ≡ ok path
      → (args.op == codes "delete") ≡ true
      → build_delete args ≡ ok action
      → IsHaPlan args action
  unfolding build_delete tool_for_ha_op missing_required_ha_fields ◌==◌
  deleted args action path expanded named h =
      let op : action.op ≡ codes "delete" = ground (arith, h) in
      record {
        same_op = op ∙ sym ((eq_iff args.op (codes "delete")).0 named);
        same_cluster = ground (arith, h);
        same_rule = ground (arith, h);
        usable = (path, expanded);
        callable = (codes "delete_ha_rule", rw op refl);
        complete = rw op refl;
        named = λ ids e. absurd (ground (arith, h, e));
      }

  -- A plan of a change of an HA rule that is built is one for the operation, the cluster and the rule
  -- that were asked for; its rule id can stand in a path; there is a tool for its operation; no field
  -- that is required of it is missing; and if it has resources, there is one at least, and each is
  -- `vm:` or `ct:` with a number behind it, in digits.
  pub build_ha_rule_action-IsHaPlan :
      (args : PlanHaRuleArgs) (action : HaRuleAction)
      → build_ha_rule_action expand_segment args ≡ ok action
      → IsHaPlan args action
  unfolding build_ha_rule_action validate_path_segment tool_for_ha_op
  build_ha_rule_action-IsHaPlan args action h = elim (Result-cases (expand_segment args.rule)) [
    | inr (e, e1) ↦ absurd (ground (arith, e1))
    | inl (path, e1) ↦ elim (Bool-cases (args.op == codes "create")) [
      | inl e2 ↦
          plan_of args true action path (codes "create_ha_rule") e1 e2 create_called
            (ground (arith, e1, e2))
      | inr e2 ↦ elim (Bool-cases (args.op == codes "update")) [
        | inl e3 ↦
            plan_of args false action path (codes "update_ha_rule") e1 e3 update_called
              (ground (arith, e1, e2, e3))
        | inr e3 ↦ elim (Bool-cases (args.op == codes "delete")) [
          | inl e4 ↦ deleted args action path e1 e4 (ground (arith, e1, e2, e3, e4))
          | inr e4 ↦ absurd (ground (arith, e1, e2, e3, e4))
        ]
      ]
    ]
  ]
