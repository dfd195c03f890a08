-- ===== src/HaRule/Allowed.antt =====
-- What an authorized change of an HA rule has behind it
-- (crates/rust-proxmoxmcp/src/server/mod.rs, `authorize_ha_rule_guests`).
use rustproxmoxmcp.Prelude.{
  ℕ, ◌≡◌, ◌⊎◌, refl, inl, inr, true, false, ◌||◌, Option, some, List, [], ◌∷◌, ◌++◌, arith,
  Bool-cases, Result-cases, Has, Has-cons, Result, ok, err,
}
use rustproxmoxmcp.Text.{Text, codes, ◌==◌}
use rustproxmoxmcp.Json.{Json}
use rustproxmoxmcp.Error.{
  ProxmoxError, http, api, unauthorized, denied, not_found, malformed, config, unknown_cluster,
}
use rustproxmoxmcp.Inventory.{Cluster}
use rustproxmoxmcp.Grant.{
  ProxmoxGrant, ProxmoxAction, allows_guest, allows_action, allows_new_vmid,
  is_unrestricted_guest_scope,
}
use rustproxmoxmcp.Guest.{ResolvedGuest, facts}
use rustproxmoxmcp.Waiver.{WaiverEntry}
use rustproxmoxmcp.Waiver.Match.{Covers}
use rustproxmoxmcp.Protect.{creation_allowed, protection_of, is_protected}
use rustproxmoxmcp.Resolve.{
  GuestIndex, resolve, authorize, is_destructive, invalidate_cluster, intent_destructive,
}
use rustproxmoxmcp.Resolve.Gate.{authorize_iff}
use rustproxmoxmcp.Resolve.Found.{
  IsListed, IsUnlisted, IsCached, resolve-found, resolve-kept, resolve-IsUnlisted, dropped-IsCached,
}
use rustproxmoxmcp.Server.Live.{IsListedNow}
use rustproxmoxmcp.Server.{
  ProxmoxServer, Caller, resolve_grant, principal_of, override_for, override_applies,
}
use rustproxmoxmcp.Server.Excuse.{override_applies-excused, some-injective}
use rustproxmoxmcp.HaRule.{HaRuleAction}
use rustproxmoxmcp.HaRule.Touched.{guests_touched}
use rustproxmoxmcp.HaRule.Guests.{
  Moments, attempt_of, require_ha_rule_destructive_tier, check_absent, authorize_resolved_vmid,
  authorize_vmid, authorize_vmids, check_ha_rule, authorize_ha_rule_guests,
}

module _ (server : ProxmoxServer) (policy : Cluster) (cluster : Text) (caller : Option Caller)
    (action : HaRuleAction) (grant : ProxmoxGrant) (now_unix : ℕ) where
  -- A reply of the cluster to this call lists the guest under the number.
  abbrev pub IsReplied : Moments → ℕ → ResolvedGuest → Type 0
  IsReplied moments vmid guest =
      (n : ℕ) × IsListedNow cluster vmid (moments n).0 (moments n).1 guest

  -- What lets a change touch a number: the guest that the cluster lists under it is in scope, and not
  -- protected unless the server is in lab mode or a waiver covers the change; or the cluster lists no
  -- guest under it, the grant admits the bare number, and it is not pinned.
  pub data IsAllowed (moments : Moments) (vmid : ℕ) : Type 0 where
    live :
        (guest : ResolvedGuest)
        → IsReplied moments vmid guest
        → allows_guest grant (facts guest) ≡ true
        → (is_protected (protection_of policy (some guest) false) ≡ false)
          ⊎ ((server.in_lab_mode ≡ true)
              ⊎ ((entry : WaiverEntry) × Has entry server.waivers.waivers
                  × Covers entry cluster vmid now_unix
                      (codes "ha_rule_" ++ action.op)
                      (principal_of caller)))
        → IsAllowed moments vmid
    absent :
        IsUnlisted cluster vmid (moments vmid).0.reply
        → allows_new_vmid grant vmid ≡ true
        → creation_allowed policy vmid ≡ true
        → IsAllowed moments vmid

  -- Whatever the index holds of the cluster was listed by a reply to this call.
  abbrev pub HoldsReplies : Moments → GuestIndex → Type 0
  HoldsReplies moments index =
      (vmid : ℕ) (guest : ResolvedGuest)
      → IsCached index cluster vmid guest
      → IsReplied moments vmid guest

  resolved_now :
      (moments : Moments) (index : GuestIndex) (vmid : ℕ) (guest : ResolvedGuest) (now : ℕ)
      (reply : Result Json ProxmoxError)
      → HoldsReplies moments index
      → (IsListed cluster vmid reply guest → IsReplied moments vmid guest)
      → (resolve index now cluster vmid reply).0 ≡ ok guest
      → IsReplied moments vmid guest
  resolved_now moments index vmid guest now reply holds lists h =
      elim (resolve-found index now cluster vmid reply guest h) [
        | inl cached ↦ holds vmid guest cached
        | inr listed ↦ lists listed
      ]

  resolve-HoldsReplies :
      (moments : Moments) (index : GuestIndex) (vmid now : ℕ) (reply : Result Json ProxmoxError)
      → HoldsReplies moments index
      → ((v : ℕ) (guest : ResolvedGuest)
          → IsListed cluster v reply guest
          → IsReplied moments v guest)
      → HoldsReplies moments (resolve index now cluster vmid reply).1
  resolve-HoldsReplies moments index vmid now reply holds lists = λ v guest cached.
      elim (resolve-kept index now cluster vmid reply v guest cached) [
        | inl before ↦ holds v guest before
        | inr listed ↦ lists v guest listed
      ]

  authorize_resolved_vmid-HoldsReplies :
      (moments : Moments) (vmid : ℕ) (resolved : Result ResolvedGuest ProxmoxError)
      (index : GuestIndex)
      → HoldsReplies moments index
      → HoldsReplies moments
          (authorize_resolved_vmid server policy cluster caller action grant now_unix moments vmid
            resolved index).1
  unfolding authorize_resolved_vmid authorize
  authorize_resolved_vmid-HoldsReplies moments vmid (err (not_found what)) index holds = holds
  authorize_resolved_vmid-HoldsReplies moments vmid (err e) index holds = holds
  authorize_resolved_vmid-HoldsReplies moments vmid (ok seen) index holds =
      resolve-HoldsReplies moments index vmid (moments vmid).1.now (moments vmid).1.reply holds
        (λ v guest listed. (vmid, inr listed))

  authorize_vmid-HoldsReplies :
      (moments : Moments) (index : GuestIndex) (vmid : ℕ)
      → HoldsReplies moments index
      → HoldsReplies moments
          (authorize_vmid server policy cluster caller action grant now_unix moments index vmid).1
  unfolding authorize_vmid
  authorize_vmid-HoldsReplies moments index vmid holds =
      let first = (moments vmid).0 in
      authorize_resolved_vmid-HoldsReplies moments vmid
        (resolve index first.now cluster vmid first.reply).0
        (resolve index first.now cluster vmid first.reply).1
        (resolve-HoldsReplies moments index vmid first.now first.reply holds
          (λ v guest listed. (vmid, inl listed)))

  authorize_resolved_vmid-IsAllowed :
      (moments : Moments) (vmid : ℕ) (resolved : Result ResolvedGuest ProxmoxError)
      (index : GuestIndex)
      → HoldsReplies moments index
      → ((what : Text)
          → resolved ≡ err (not_found what)
          → IsUnlisted cluster vmid (moments vmid).0.reply)
      → (authorize_resolved_vmid server policy cluster caller action grant now_unix moments vmid
          resolved index).0
        ≡ ok tt
      → IsAllowed moments vmid
  unfolding authorize_resolved_vmid check_absent is_destructive
  authorize_resolved_vmid-IsAllowed moments vmid (err (not_found what)) index holds gone h =
      absent (gone what refl) (ground arith) (ground arith)
  authorize_resolved_vmid-IsAllowed moments vmid (err (http e)) index holds gone h = absurd (cc)
  authorize_resolved_vmid-IsAllowed moments vmid (err (api e f)) index holds gone h = absurd (cc)
  authorize_resolved_vmid-IsAllowed moments vmid (err unauthorized) index holds gone h = absurd (cc)
  authorize_resolved_vmid-IsAllowed moments vmid (err (denied e)) index holds gone h = absurd (cc)
  authorize_resolved_vmid-IsAllowed moments vmid (err (malformed e)) index holds gone h =
      absurd (cc)
  authorize_resolved_vmid-IsAllowed moments vmid (err (config e)) index holds gone h = absurd (cc)
  authorize_resolved_vmid-IsAllowed moments vmid (err (unknown_cluster e)) index holds gone h =
      absurd (cc)
  authorize_resolved_vmid-IsAllowed moments vmid (ok seen) index holds gone h =
      let applies =
        override_applies
          (override_for server policy cluster vmid now_unix (attempt_of caller action) (ok seen)) in
      let second = (moments vmid).1 in
      elim (Result-cases
        (authorize policy index second.now cluster vmid grant (intent_destructive applies)
          second.reply).0) [
            | inr (problem, e) ↦ absurd (ground (arith, e, h))
            | inl (granted, e) ↦
                let (guest, found, i) =
                  (authorize_iff policy cluster vmid grant (intent_destructive applies) index
                      second.now second.reply granted).0
                    e in
                let replied =
                  resolved_now moments index vmid guest second.now second.reply holds
                    (λ listed. (vmid, inr listed)) found in
                live guest replied i.in_scope (elim i.spared [
                  | inl nothing ↦ absurd (cc)
                  | inr (inl free) ↦ inl free
                  | inr (inr excused) ↦ inr (
                      override_applies-excused server policy cluster vmid now_unix
                        (attempt_of caller action) (ok seen) (some-injective excused))
                ])
          ]

  authorize_vmids-IsAllowed :
      (moments : Moments) (index : GuestIndex) (vmids : List ℕ)
      → HoldsReplies moments index
      → (authorize_vmids server policy cluster caller action grant now_unix moments index vmids).0
        ≡ ok tt
      → (vmid : ℕ) → Has vmid vmids
      → IsAllowed moments vmid
  unfolding authorize_vmids authorize_vmid
  authorize_vmids-IsAllowed moments index [] holds h vmid m = elim m [ ]
  authorize_vmids-IsAllowed moments index (v ∷ vs) holds h vmid m =
      let step =
        authorize_vmid server policy cluster caller action grant now_unix moments index v in
      elim (Result-cases step.0) [
        | inr (problem, e) ↦ absurd (ground (arith, e, h))
        | inl (tt, e) ↦ elim (Has-cons m) [
          | inl same ↦ rw same (
              authorize_resolved_vmid-IsAllowed moments v
                (resolve index (moments v).0.now cluster v (moments v).0.reply).0
                (resolve index (moments v).0.now cluster v (moments v).0.reply).1
                (resolve-HoldsReplies moments index v (moments v).0.now (moments v).0.reply holds
                  (λ w guest listed. (v, inl listed)))
                (resolve-IsUnlisted index (moments v).0.now cluster v (moments v).0.reply) e)
          | inr n ↦
              authorize_vmids-IsAllowed moments step.1 vs
                (authorize_vmid-HoldsReplies moments index v holds) (ground (arith, e, h)) vmid n
        ]
      ]

-- If a change of an HA rule is authorized, then the caller's grant carries the destructive tier, it is
-- unrestricted if the rule is updated or deleted, the guests that the change touches are known, and
-- for each of them, either the guest that a reply of the cluster to this call lists under the number is
-- in the scope of the grant and not protected (or excused by lab mode or by a waiver for this change),
-- or the number is one that the grant admits and that is not pinned, and the cluster was asked for it
-- and lists no guest there (or the client itself answers that what was asked for does not exist).
pub authorize_ha_rule_guests-IsAllowed :
    (server : ProxmoxServer) (policy : Cluster) (cluster : Text) (caller : Option Caller)
    (action : HaRuleAction) (existing : Option Json) (now_unix : ℕ) (moments : Moments)
    (index : GuestIndex)
    → (authorize_ha_rule_guests server policy cluster caller action existing now_unix moments
        index).0
      ≡ ok tt
    → (grant : ProxmoxGrant) × (vmids : List ℕ) × (resolve_grant caller ≡ ok grant)
      × (allows_action grant ProxmoxAction.destructive ≡ true)
      × (((action.op == codes "update" || action.op == codes "delete") ≡ false)
          ⊎ (is_unrestricted_guest_scope grant ≡ true))
      × (guests_touched action existing ≡ ok vmids)
      × ((vmid : ℕ)
          → Has vmid vmids
          → IsAllowed server policy cluster caller action grant now_unix moments vmid)
unfolding authorize_ha_rule_guests check_ha_rule require_ha_rule_destructive_tier
authorize_ha_rule_guests-IsAllowed server policy cluster caller action existing now_unix moments
      index h =
    elim (Result-cases (resolve_grant caller)) [
      | inr (problem, e) ↦ absurd (ground (arith, e))
      | inl (grant, e) ↦ elim (Result-cases (guests_touched action existing)) [
        | inr (problem, e1) ↦ absurd (ground (arith, e, e1))
        | inl (vmids, e1) ↦ (
          grant,
          vmids,
          e,
          ground (arith, e, e1),
          elim (Bool-cases (is_unrestricted_guest_scope grant)) [
            | inl e2 ↦ inr e2
            | inr e2 ↦ inl (ground (arith, e, e1, e2))
          ],
          e1,
          authorize_vmids-IsAllowed server policy cluster caller action grant now_unix moments
              (invalidate_cluster cluster index) vmids
              (λ v guest cached. absurd (dropped-IsCached index cluster v guest cached))
              (ground (arith, e, e1)),
        )
      ]
    ]
