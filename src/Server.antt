-- ===== src/Server.antt =====
-- crates/rust-proxmoxmcp/src/server/mod.rs: what the handlers of the tools share. A tool error is the
-- constructor of its cause; its text is left out.
pub mod Low
pub mod Lifecycle
pub mod Creation
pub mod Free
pub mod Fresh
pub mod Excuse
pub mod Live
use rustproxmoxmcp.Prelude.{
  ℕ, Bool, true, false, not, Option, none, some, List, Result, ok, err, ◌>>=◌, ◌>>◌, ok_or, map_err,
  refuse_if,
}
use rustproxmoxmcp.Text.{Text}
use rustproxmoxmcp.Json.{Json}
use rustproxmoxmcp.Error.{ProxmoxError}
use rustproxmoxmcp.Selector.{GuestType}
use rustproxmoxmcp.Grant.{ProxmoxGrant, read_only}
use rustproxmoxmcp.Inventory.{Cluster}
use rustproxmoxmcp.Waiver.{WaiverFile}
use rustproxmoxmcp.Guest.{ResolvedGuest}
use rustproxmoxmcp.Protect.{
  Protection, Override, no_override, waiver, lab_mode, DestructiveAttempt, protection_of,
  destructive_allowed,
}
use rustproxmoxmcp.Resolve.{
  GuestIndex, Intent, AuthorizedGuest, resolve, authorize, invalidate_cluster, intent_destructive,
  intent_low_with_override,
}

-- `CallerCtx<ProxmoxGrant>`, as far as the handlers read it
pub record Caller : Type 0 where
  pub token_name : Text
  pub grant : Option ProxmoxGrant

-- `ProxmoxServer`: a client is the inventory entry of its cluster; `authorize_call` of mecmcp-auth and
-- the check of mecmcp-audit's direct-commit policy are functions.
pub record ProxmoxServer : Type 0 where
  pub clients : Text → Option Cluster
  pub waivers : WaiverFile
  pub in_lab_mode : Bool
  pub authorize_call : Option Caller → Text → Text → Bool
  pub direct_commit : Option Caller → Text → Text → Text → Bool

-- When a request is made, on the clock of the cache and on that of the waivers, and what the cluster
-- answers if its guests are asked for.
pub record Moment : Type 0 where
  pub now : ℕ
  pub now_unix : ℕ
  pub reply : Result Json ProxmoxError

pub data ToolError : Type 0 where
  not_authorized : Text → ToolError
  no_client : Text → ToolError
  no_selector : ToolError
  core : ProxmoxError → ToolError
  message : Text → ToolError
  wrong_type : Text → GuestType → ToolError
  direct_commit_refused : Text → ToolError
  low_tier_required destructive_tier_required unrestricted_scope_required unreadable_rule :
      ToolError
  outside_scope : ℕ → ToolError
  pinned_vmid : ℕ → ToolError
  protected_owner : ℕ → ToolError
  already_exists : ℕ → Text → ToolError
  no_change_set : Text → ToolError
  no_preview : ToolError
  no_readable_op : ToolError
  unreadable_config : ProxmoxError → ToolError
  fingerprint_changed : Text → Text → ToolError
  not_approved : ToolError
  unreadable_action : Text → ToolError
  no_action : ToolError
  unknown_operation : Text → ToolError
  missing_fields : List Text → ToolError
  refused_at_apply : Text → ToolError
  not_claimed : Text → ToolError
  no_evidence : Text → Result (Unit {0}) Text → ToolError
  malformed_upid : Text → ToolError
  poll_failed : Text → ToolError
  task_failed : Text → ToolError

-- `client_for`
unfoldable pub client_for : ProxmoxServer → Text → Result Cluster ToolError
client_for server cluster = ok_or (server.clients cluster) (no_client cluster)

-- `resolve_grant`: without a token the call reads only, with one it needs a grant
unfoldable pub resolve_grant : Option Caller → Result ProxmoxGrant ToolError
resolve_grant none = ok read_only
resolve_grant (some caller) = ok_or caller.grant no_selector

-- `authorize_call`, as an early return
abbrev pub require_tool : ProxmoxServer → Option Caller → Text → Text → Result (Unit {0}) ToolError
require_tool server caller tool cluster =
    refuse_if (not (server.authorize_call caller tool cluster)) (not_authorized tool)

abbrev pub principal_of : Option Caller → Option Text
principal_of none = none
principal_of (some caller) = some caller.token_name

-- The protection of what was resolved: a failed resolution is a failed read.
unfoldable pub observed_protection : Cluster → Result ResolvedGuest ProxmoxError → Protection
observed_protection policy (ok guest) = protection_of policy (some guest) false
observed_protection policy (err e) = protection_of policy none true

-- `!matches!(override_, Override::None)`
unfoldable pub override_applies : Override → Bool
override_applies no_override = false
override_applies (waiver reason ticket until) = true
override_applies lab_mode = true

unfoldable pub override_for :
    ProxmoxServer
    → Cluster
    → Text
    → ℕ
    → ℕ
    → DestructiveAttempt
    → Result ResolvedGuest ProxmoxError
    → Override
unfolding observed_protection
override_for server policy cluster vmid now_unix attempt resolved =
    destructive_allowed (observed_protection policy resolved) server.waivers cluster vmid now_unix
      server.in_lab_mode attempt

-- The steps that plan, apply, the lifecycle verbs and the low-tier tools have in common: resolve the
-- guest, look for an override, and authorize the call with it. The second moment is that of the
-- request which `authorize` makes if the cache has run out meanwhile.
unfoldable pub authorize_with_override :
    ProxmoxServer
    → Cluster
    → GuestIndex
    → Moment
    → Moment
    → Text
    → ℕ
    → ProxmoxGrant
    → DestructiveAttempt
    → (Bool → Intent)
    → Result AuthorizedGuest ProxmoxError × GuestIndex
unfolding override_for override_applies
authorize_with_override server policy index first second cluster vmid grant attempt intent =
    let (resolved, index') = resolve index first.now cluster vmid first.reply in
    authorize policy index' second.now cluster vmid grant
      (intent (
        override_applies (override_for server policy cluster vmid first.now_unix attempt resolved)))
      second.reply
