-- ===== src/Server/Free.antt =====
-- What an authorized creation, and the restore of an archive, have behind them
-- (crates/rust-proxmoxmcp/src/server/mod.rs).
use rustproxmoxmcp.Prelude.{
  ℕ, ◌≡◌, ◌⊎◌, refl, inl, inr, true, false, Option, some, arith, Has, Bool-cases, Option-cases,
  Result-cases, Result, ok, err,
}
use rustproxmoxmcp.Text.{Text, codes}
use rustproxmoxmcp.Error.{ProxmoxError, not_found}
use rustproxmoxmcp.Inventory.{Cluster}
use rustproxmoxmcp.Grant.{ProxmoxGrant, ProxmoxAction, allows_guest, allows_action, allows_new_vmid}
use rustproxmoxmcp.Guest.{ResolvedGuest, facts}
use rustproxmoxmcp.Waiver.{WaiverEntry}
use rustproxmoxmcp.Waiver.Match.{Covers}
use rustproxmoxmcp.Protect.{creation_allowed, is_protected, protection_of, destructive_allowed}
use rustproxmoxmcp.Protect.Allowed.{overrides-cases}
use rustproxmoxmcp.Resolve.{GuestIndex, resolve, invalidate_cluster}
use rustproxmoxmcp.Resolve.Found.{IsUnlisted, resolve-IsUnlisted}
use rustproxmoxmcp.Server.{
  ProxmoxServer, Caller, Moment, client_for, resolve_grant, override_applies,
}
use rustproxmoxmcp.Server.Excuse.{overrides-override_applies}
use rustproxmoxmcp.Server.Low.{admit_caller}
use rustproxmoxmcp.Server.Creation.{
  require_absent, check_new_vmid, admit_creation, authorize_creation, judge_owner,
  authorize_backup_owner,
}

-- A number that may be created.
pub record IsFree (server : ProxmoxServer) (index : GuestIndex) (moment : Moment)
    (caller : Option Caller) (tool cluster : Text) (vmid : ℕ) (policy : Cluster) : Type 0 where
  pub grant : ProxmoxGrant
  pub may_call : server.authorize_call caller tool cluster ≡ true
  pub known : server.clients cluster ≡ some policy
  pub held : resolve_grant caller ≡ ok grant
  pub may_act : allows_action grant ProxmoxAction.low ≡ true
  pub in_scope : allows_new_vmid grant vmid ≡ true
  pub unpinned : creation_allowed policy vmid ≡ true
  pub unlisted : IsUnlisted cluster vmid moment.reply

require_absent-not_found :
    (vmid : ℕ) (resolved : Result ResolvedGuest ProxmoxError)
    → require_absent vmid resolved ≡ ok tt
    → (what : Text) × (resolved ≡ err (not_found what))
unfolding require_absent
require_absent-not_found vmid (ok guest) h = absurd (cc)
require_absent-not_found vmid (err (not_found what)) h = (what, refl)
require_absent-not_found vmid (err other) h = absurd (cc)

-- If `authorize_creation` lets a call pass, then the caller may call the tool, the cluster is known,
-- the caller's grant carries the low tier and admits the number, the number is not pinned, and the
-- cluster was asked, whatever the cache holds, and answered: its reply is a list of guests, none of
-- which has the number, or the client's own answer that what was asked for does not exist. No other
-- failure of the request lets a creation pass.
pub authorize_creation-IsFree :
    (server : ProxmoxServer) (index : GuestIndex) (moment : Moment) (caller : Option Caller)
    (tool cluster : Text) (vmid : ℕ) (policy : Cluster)
    → (authorize_creation server index moment caller tool cluster vmid).0 ≡ ok policy
    → IsFree server index moment caller tool cluster vmid policy
unfolding authorize_creation require_absent admit_creation admit_caller check_new_vmid client_for
authorize_creation-IsFree server index moment caller tool cluster vmid policy h =
    elim (Option-cases (server.clients cluster)) [
      | inl e ↦ absurd (ground (arith, e))
      | inr (known, e) ↦ elim (Result-cases (resolve_grant caller)) [
        | inr (problem, e1) ↦ absurd (ground (arith, e, e1))
        | inl (grant, e1) ↦
            let index' = invalidate_cluster cluster index in
            record {
              grant = grant;
              may_call = ground (arith, e, e1);
              known = ground (arith, e, e1);
              held = e1;
              may_act = ground (arith, e, e1);
              in_scope = ground (arith, e, e1);
              unpinned = ground (arith, e, e1);
              unlisted =
                  let resolved = resolve index' moment.now cluster vmid moment.reply in
                  let (what, absent) =
                    require_absent-not_found vmid resolved.0 (ground (arith, e, e1)) in
                  resolve-IsUnlisted index' moment.now cluster vmid moment.reply what absent;
            }
      ]
    ]

-- What lets a restore read from the archive of a guest.
pub data IsReadable (server : ProxmoxServer) (policy : Cluster) (cluster : Text) (owner_vmid : ℕ)
    (grant : ProxmoxGrant) (now_unix : ℕ) (principal : Option Text)
    : Result ResolvedGuest ProxmoxError → Type 0 where
  owned :
      (guest : ResolvedGuest)
      → allows_guest grant (facts guest) ≡ true
      → (is_protected (protection_of policy (some guest) false) ≡ false)
        ⊎ ((server.in_lab_mode ≡ true)
            ⊎ ((entry : WaiverEntry) × Has entry server.waivers.waivers
                × Covers entry cluster owner_vmid now_unix (codes "restore_new_vmid") principal))
      → IsReadable server policy cluster owner_vmid grant now_unix principal (ok guest)
  gone :
      (what : Text)
      → allows_new_vmid grant owner_vmid ≡ true
      → IsReadable server policy cluster owner_vmid grant now_unix principal (err (not_found what))

judge_owner-IsReadable :
    (server : ProxmoxServer) (policy : Cluster) (cluster : Text) (owner_vmid : ℕ)
    (grant : ProxmoxGrant) (now_unix : ℕ) (principal : Option Text)
    (resolved : Result ResolvedGuest ProxmoxError)
    → judge_owner server policy cluster owner_vmid grant now_unix principal resolved ≡ ok tt
    → IsReadable server policy cluster owner_vmid grant now_unix principal resolved
unfolding judge_owner
judge_owner-IsReadable server policy cluster owner_vmid grant now_unix principal
      (err (not_found what)) h =
    gone what (ground arith)
judge_owner-IsReadable server policy cluster owner_vmid grant now_unix principal (err e) h =
    absurd (ground arith)
judge_owner-IsReadable server policy cluster owner_vmid grant now_unix principal (ok guest) h =
    let protection = protection_of policy (some guest) false in
    let override =
      destructive_allowed protection server.waivers cluster owner_vmid now_unix server.in_lab_mode
        (record { op = codes "restore_new_vmid"; principal = principal }) in
    owned guest (ground arith) (elim (Bool-cases (is_protected protection)) [
      | inr free ↦ inl free
      | inl held ↦
          let applies : override_applies override ≡ true = ground (arith, held) in
          elim (overrides-cases protection server.waivers cluster owner_vmid now_unix
            server.in_lab_mode (record { op = codes "restore_new_vmid"; principal = principal })
            (rw overrides-override_applies at applies)) [
              | inl waived ↦ inr (inr waived)
              | inr lab ↦ inr (inl lab)
            ]
    ])

-- If `authorize_backup_owner` lets a restore pass, then the owner of the archive either resolves to a
-- guest in the scope of the grant that is not protected, or for which the server is in lab mode or a
-- waiver covers the restore; or it does not exist, and the grant admits its bare number.
pub authorize_backup_owner-IsReadable :
    (server : ProxmoxServer) (policy : Cluster) (index : GuestIndex) (moment : Moment)
    (cluster : Text) (owner_vmid : ℕ) (grant : ProxmoxGrant) (principal : Option Text)
    → (authorize_backup_owner server policy index moment cluster owner_vmid grant principal).0
      ≡ ok tt
    → IsReadable server policy cluster owner_vmid grant moment.now_unix principal
        (resolve index moment.now cluster owner_vmid moment.reply).0
unfolding authorize_backup_owner
authorize_backup_owner-IsReadable server policy index moment cluster owner_vmid grant principal h =
    judge_owner-IsReadable server policy cluster owner_vmid grant moment.now_unix principal
      (resolve index moment.now cluster owner_vmid moment.reply).0 h
