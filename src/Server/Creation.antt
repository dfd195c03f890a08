-- ===== src/Server/Creation.antt =====
-- crates/rust-proxmoxmcp/src/server/mod.rs: the authorization of a call that names a guest which does
-- not exist yet, and of one that reads an archive of a guest which may not exist any more.
use rustproxmoxmcp.Prelude.{
  ℕ, false, not, ◌&&◌, Option, some, Result, ok, err, ◌>>=◌, ◌>>◌, refuse_if,
}
use rustproxmoxmcp.Text.{Text, codes}
use rustproxmoxmcp.Error.{ProxmoxError, not_found}
use rustproxmoxmcp.Inventory.{Cluster}
use rustproxmoxmcp.Grant.{ProxmoxGrant, ProxmoxAction, allows_guest, allows_action, allows_new_vmid}
use rustproxmoxmcp.Guest.{ResolvedGuest, facts}
use rustproxmoxmcp.Protect.{creation_allowed, is_protected, protection_of, destructive_allowed}
use rustproxmoxmcp.Resolve.{GuestIndex, invalidate_cluster, resolve}
use rustproxmoxmcp.Server.{
  ProxmoxServer, Caller, Moment, ToolError, override_applies, core, low_tier_required,
  outside_scope, pinned_vmid, protected_owner, already_exists,
}
use rustproxmoxmcp.Server.Low.{admit_caller}

-- The number must be free: nothing but a clean absence will do.
unfoldable pub require_absent : ℕ → Result ResolvedGuest ProxmoxError → Result (Unit {0}) ToolError
require_absent vmid (ok existing) = err (already_exists vmid existing.name)
require_absent vmid (err (not_found what)) = ok tt
require_absent vmid (err error) = err (core error)

-- What the grant and the inventory say of the number.
unfoldable pub check_new_vmid : Cluster → ProxmoxGrant → ℕ → Result (Unit {0}) ToolError
check_new_vmid policy grant vmid = do
  refuse_if (not (allows_action grant ProxmoxAction.low)) low_tier_required
  refuse_if (not (allows_new_vmid grant vmid)) (outside_scope vmid)
  refuse_if (not (creation_allowed policy vmid)) (pinned_vmid vmid)

-- What is answered before the cluster is asked.
unfoldable pub admit_creation :
    ProxmoxServer → Option Caller → Text → Text → ℕ → Result Cluster ToolError
unfolding admit_caller check_new_vmid
admit_creation server caller tool cluster vmid = do
  (policy, grant) ← admit_caller server caller tool cluster
  check_new_vmid policy grant vmid
  ok policy

-- `authorize_creation`: the client is the inventory entry of its cluster
unfoldable pub authorize_creation :
    ProxmoxServer
    → GuestIndex
    → Moment
    → Option Caller
    → Text
    → Text
    → ℕ
    → Result Cluster ToolError × GuestIndex
unfolding admit_creation require_absent
authorize_creation server index moment caller tool cluster vmid =
    elim (admit_creation server caller tool cluster vmid) [
      | err e ↦ (err e, index)
      | ok policy ↦
          let (resolved, index') =
            resolve (invalidate_cluster cluster index) moment.now cluster vmid moment.reply in
          ((do require_absent vmid resolved; ok policy), index')
    ]

-- The owner of an archive, as far as it is known.
unfoldable pub judge_owner :
    ProxmoxServer
    → Cluster
    → Text
    → ℕ
    → ProxmoxGrant
    → ℕ
    → Option Text
    → Result ResolvedGuest ProxmoxError
    → Result (Unit {0}) ToolError
judge_owner server policy cluster owner_vmid grant now_unix principal (ok guest) = do
  refuse_if (not (allows_guest grant (facts guest))) (outside_scope owner_vmid)
  refuse_if
      (is_protected (protection_of policy (some guest) false)
        && not (
            override_applies (
              destructive_allowed (protection_of policy (some guest) false) server.waivers cluster
                owner_vmid now_unix server.in_lab_mode
                (record { op = codes "restore_new_vmid"; principal = principal }))))
      (protected_owner owner_vmid)
judge_owner server policy cluster owner_vmid grant now_unix principal (err (not_found what)) =
    refuse_if (not (allows_new_vmid grant owner_vmid)) (outside_scope owner_vmid)
judge_owner server policy cluster owner_vmid grant now_unix principal (err error) = err (core error)

-- `authorize_backup_owner`
unfoldable pub authorize_backup_owner :
    ProxmoxServer
    → Cluster
    → GuestIndex
    → Moment
    → Text
    → ℕ
    → ProxmoxGrant
    → Option Text
    → Result (Unit {0}) ToolError × GuestIndex
unfolding judge_owner
authorize_backup_owner server policy index moment cluster owner_vmid grant principal =
    let (resolved, index') = resolve index moment.now cluster owner_vmid moment.reply in
    (judge_owner server policy cluster owner_vmid grant moment.now_unix principal resolved, index')
