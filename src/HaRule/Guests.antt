-- ===== src/HaRule/Guests.antt =====
-- crates/rust-proxmoxmcp/src/server/mod.rs, `authorize_ha_rule_guests`: every guest that a change of an
-- HA rule touches is authorized, as for a destructive call.
use rustproxmoxmcp.Prelude.{
  ℕ, not, ◌&&◌, ◌||◌, Option, List, [], ◌∷◌, ◌++◌, Result, ok, err, ◌>>=◌, ◌>>◌, map_err, refuse_if,
}
use rustproxmoxmcp.Text.{Text, codes, ◌==◌}
use rustproxmoxmcp.Json.{Json}
use rustproxmoxmcp.Error.{ProxmoxError, not_found, guest_out_of_scope}
use rustproxmoxmcp.Inventory.{Cluster}
use rustproxmoxmcp.Grant.{
  ProxmoxGrant, ProxmoxAction, allows_action, allows_new_vmid, is_unrestricted_guest_scope,
}
use rustproxmoxmcp.Guest.{ResolvedGuest}
use rustproxmoxmcp.Protect.{DestructiveAttempt, creation_allowed}
use rustproxmoxmcp.Resolve.{GuestIndex, resolve, authorize, invalidate_cluster, intent_destructive}
use rustproxmoxmcp.Server.{
  ProxmoxServer, Caller, Moment, ToolError, resolve_grant, principal_of, override_for,
  override_applies, core, pinned_vmid, destructive_tier_required, unrestricted_scope_required,
  unreadable_rule,
}
use rustproxmoxmcp.HaRule.{HaRuleAction, HaRefusal}
use rustproxmoxmcp.HaRule.Touched.{guests_touched}

unfoldable pub require_ha_rule_destructive_tier : Option Caller → Result (Unit {0}) ToolError
unfolding resolve_grant
require_ha_rule_destructive_tier caller = do
  grant ← resolve_grant caller
  refuse_if (not (allows_action grant ProxmoxAction.destructive)) destructive_tier_required

-- `format!("ha_rule_{}", action.op)`, with the caller
abbrev pub attempt_of : Option Caller → HaRuleAction → DestructiveAttempt
attempt_of caller action = record {
  op = codes "ha_rule_" ++ action.op;
  principal = principal_of caller;
}

-- A number that no guest has.
unfoldable pub check_absent : Cluster → Text → ProxmoxGrant → ℕ → Result (Unit {0}) ToolError
check_absent policy cluster grant vmid = do
  refuse_if (not (allows_new_vmid grant vmid)) (core (guest_out_of_scope cluster))
  refuse_if (not (creation_allowed policy vmid)) (pinned_vmid vmid)

abbrev pub discard : {A E : Type 0} → Result A E → Result (Unit {0}) E
discard (ok a) = ok tt
discard (err e) = err e

-- What the cluster answers when the guest is resolved, and when it is authorized.
abbrev pub Moments : Type 0
Moments = ℕ → Moment × Moment

module _ (server : ProxmoxServer) (policy : Cluster) (cluster : Text) (caller : Option Caller)
    (action : HaRuleAction) (grant : ProxmoxGrant) (now_unix : ℕ) (moments : Moments) where
  unfoldable pub authorize_resolved_vmid :
      ℕ → Result ResolvedGuest ProxmoxError → GuestIndex → Result (Unit {0}) ToolError × GuestIndex
  unfolding override_for override_applies check_absent
  authorize_resolved_vmid vmid (ok guest) index =
      let (authorized, index') =
        authorize policy index (moments vmid).1.now cluster vmid grant
          (intent_destructive (
            override_applies (
              override_for server policy cluster vmid now_unix (attempt_of caller action)
                (ok guest))))
          (moments vmid).1.reply in
      (discard (map_err core authorized), index')
  authorize_resolved_vmid vmid (err (not_found what)) index =
      (check_absent policy cluster grant vmid, index)
  authorize_resolved_vmid vmid (err error) index = (err (core error), index)

  -- The body of the loop.
  unfoldable pub authorize_vmid : GuestIndex → ℕ → Result (Unit {0}) ToolError × GuestIndex
  unfolding authorize_resolved_vmid
  authorize_vmid index vmid =
      let (resolved, index') =
        resolve index (moments vmid).0.now cluster vmid (moments vmid).0.reply in
      authorize_resolved_vmid vmid resolved index'

  -- The loop, with an early return.
  unfoldable pub authorize_vmids : GuestIndex → List ℕ → Result (Unit {0}) ToolError × GuestIndex
  unfolding authorize_vmid
  authorize_vmids index [] = (ok tt, index)
  authorize_vmids index (vmid ∷ vmids) =
      let (answer, index') = authorize_vmid index vmid in
      let (answers, index'') = authorize_vmids index' vmids in
      elim answer [ err e ↦ (err e, index') | ok u ↦ (answers, index'') ]

-- The checks before the first guest is resolved, with the guests that are touched.
unfoldable pub check_ha_rule :
    Option Caller → HaRuleAction → Option Json → Result (ProxmoxGrant × List ℕ) ToolError
unfolding require_ha_rule_destructive_tier resolve_grant
check_ha_rule caller action existing = do
  require_ha_rule_destructive_tier caller
  grant ← resolve_grant caller
  refuse_if
      ((action.op == codes "update" || action.op == codes "delete")
        && not (is_unrestricted_guest_scope grant))
      unrestricted_scope_required
  vmids ← map_err (λ (e : HaRefusal). unreadable_rule) (guests_touched action existing)
  ok (grant, vmids)

-- `authorize_ha_rule_guests`: the client is the inventory entry of its cluster
unfoldable pub authorize_ha_rule_guests :
    ProxmoxServer
    → Cluster
    → Text
    → Option Caller
    → HaRuleAction
    → Option Json
    → ℕ
    → Moments
    → GuestIndex
    → Result (Unit {0}) ToolError × GuestIndex
unfolding check_ha_rule authorize_vmids
authorize_ha_rule_guests server policy cluster caller action existing now_unix moments index =
    elim (check_ha_rule caller action existing) [
      | err e ↦ (err e, index)
      | ok (grant, vmids) ↦
          authorize_vmids server policy cluster caller action grant now_unix moments
            (invalidate_cluster cluster index) vmids
    ]
