-- ===== src/Server/Low.antt =====
-- crates/rust-proxmoxmcp/src/server/mod.rs: the authorization of the tools of the low tier, and the
-- lifecycle verbs.
use rustproxmoxmcp.Prelude.{
  ℕ, Bool, not, Option, none, some, List, [], ◌∷◌, if◌then◌else◌, Result, ok, err, ◌>>=◌, ◌>>◌,
  map_err, refuse_if,
}
use rustproxmoxmcp.Text.{Text, codes}
use rustproxmoxmcp.Text.Number.{decimal}
use rustproxmoxmcp.Error.{ProxmoxError}
use rustproxmoxmcp.Selector.{GuestType, same_type}
use rustproxmoxmcp.Inventory.{Cluster}
use rustproxmoxmcp.Grant.{ProxmoxGrant}
use rustproxmoxmcp.Tier.{interrupts_service}
use rustproxmoxmcp.Resolve.{
  GuestIndex, AuthorizedGuest, invalidate_cluster, intent_low_with_override,
}
use rustproxmoxmcp.Server.{
  ProxmoxServer, Caller, Moment, ToolError, client_for, resolve_grant, require_tool, principal_of,
  authorize_with_override, core, wrong_type, direct_commit_refused,
}

pub data LifecycleVerb : Type 0 where
  start stop shutdown reset reboot : LifecycleVerb

-- `guests::lifecycle` with its arguments
pub record LifecycleCall : Type 0 where
  pub node : Text
  pub kind : GuestType
  pub vmid : ℕ
  pub verb : LifecycleVerb

-- `gate_direct_commit`
unfoldable pub gate_direct_commit :
    ProxmoxServer → Option Caller → Text → Text → Text → Result (Unit {0}) ToolError
gate_direct_commit server caller tool action target =
    refuse_if (not (server.direct_commit caller tool action target)) (direct_commit_refused tool)

-- What comes before the cluster is asked.
unfoldable pub admit_caller :
    ProxmoxServer → Option Caller → Text → Text → Result (Cluster × ProxmoxGrant) ToolError
unfolding client_for resolve_grant
admit_caller server caller tool cluster = do
  require_tool server caller tool cluster
  policy ← client_for server cluster
  grant ← resolve_grant caller
  ok (policy, grant)

abbrev pub or_given : Option Bool → Bool → Bool
or_given none otherwise' = otherwise'
or_given (some given) otherwise' = given

-- The index, without the snapshot of the cluster if the call interrupts.
unfoldable pub index_for : Bool → Text → GuestIndex → GuestIndex
index_for interrupts cluster index = if interrupts then invalidate_cluster cluster index else index

-- `authorize_low_with_interrupts`
unfoldable pub authorize_low_with_interrupts :
    ProxmoxServer
    → GuestIndex
    → Moment
    → Moment
    → Option Caller
    → Text
    → Text
    → ℕ
    → Option Bool
    → Result AuthorizedGuest ToolError × GuestIndex
unfolding admit_caller index_for
authorize_low_with_interrupts server index first second caller tool cluster vmid
      interrupts_override =
    elim (admit_caller server caller tool cluster) [
      | err e ↦ (err e, index)
      | ok (policy, grant) ↦
          let interrupts = or_given interrupts_override (interrupts_service tool) in
          let (authorized, index') =
            authorize_with_override server policy (index_for interrupts cluster index) first second
              cluster vmid grant (record { op = tool; principal = principal_of caller })
              (λ applies. record (intent_low_with_override tool applies) {
                interrupts = interrupts;
              }) in
          (map_err core authorized, index')
    ]

-- `authorize_low`
unfoldable pub authorize_low :
    ProxmoxServer
    → GuestIndex
    → Moment
    → Moment
    → Option Caller
    → Text
    → Text
    → ℕ
    → Result AuthorizedGuest ToolError × GuestIndex
unfolding authorize_low_with_interrupts
authorize_low server index first second caller tool cluster vmid =
    authorize_low_with_interrupts server index first second caller tool cluster vmid none

-- What is checked of a guest that is authorized, before the verb is sent.
unfoldable pub check_lifecycle :
    ProxmoxServer
    → Option Caller
    → Text
    → LifecycleVerb
    → GuestType
    → AuthorizedGuest
    → Result LifecycleCall ToolError
unfolding gate_direct_commit
check_lifecycle server caller tool verb required_type authorized = do
  refuse_if (not (same_type authorized.guest.type required_type))
      (wrong_type tool authorized.guest.type)
  if interrupts_service tool
      then gate_direct_commit server caller tool (codes "interrupt") (decimal authorized.guest.vmid)
      else ok tt
  ok (record {
    node = authorized.guest.node;
    kind = authorized.guest.type;
    vmid = authorized.guest.vmid;
    verb = verb;
  })

-- `serve_lifecycle` up to the call that it sends, with the index that it leaves.
unfoldable pub choose_lifecycle :
    ProxmoxServer
    → GuestIndex
    → Moment
    → Moment
    → Option Caller
    → Text
    → LifecycleVerb
    → GuestType
    → Text
    → ℕ
    → Result LifecycleCall ToolError × GuestIndex
unfolding admit_caller index_for check_lifecycle
choose_lifecycle server index first second caller tool verb required_type cluster vmid =
    elim (admit_caller server caller tool cluster) [
      | err e ↦ (err e, index)
      | ok (policy, grant) ↦
          let (authorized, index') =
            authorize_with_override server policy
              (index_for (interrupts_service tool) cluster index) first second cluster vmid grant
              (record { op = tool; principal = principal_of caller })
              (intent_low_with_override tool) in
          (
            (do
              granted ← map_err core authorized
              check_lifecycle server caller tool verb required_type granted),
            index',
          )
    ]

-- `serve_lifecycle`: the answer, the calls that were sent, and the index.
unfoldable pub serve_lifecycle :
    ProxmoxServer
    → (LifecycleCall → Result Text ProxmoxError)
    → GuestIndex
    → Moment
    → Moment
    → Option Caller
    → Text
    → LifecycleVerb
    → GuestType
    → Text
    → ℕ
    → (Result Text ToolError × List LifecycleCall) × GuestIndex
unfolding choose_lifecycle
serve_lifecycle server lifecycle index first second caller tool verb required_type cluster vmid =
    let (chosen, index') =
      choose_lifecycle server index first second caller tool verb required_type cluster vmid in
    (
      elim chosen [ err e ↦ (err e, []) | ok call ↦ (map_err core (lifecycle call), call ∷ []) ],
      index',
    )
