-- ===== src/Resolve/Gate.antt =====
-- What stage-2 authorization lets through, and what it gives away.
use rustproxmoxmcp.Prelude.{
  ℕ, ◌≡◌, ◌↔◌, refl, ◌⊎◌, Bool, true, false, not, ◌&&◌, ◌||◌, Option, none, some, arith, Result, ok,
  err,
}
use rustproxmoxmcp.Text.{Text}
use rustproxmoxmcp.Json.{Json}
use rustproxmoxmcp.Error.{ProxmoxError, not_found}
use rustproxmoxmcp.Grant.{ProxmoxGrant, allows_guest, allows_action}
use rustproxmoxmcp.Inventory.{Cluster}
use rustproxmoxmcp.Guest.{ResolvedGuest, facts}
use rustproxmoxmcp.Tier.{action}
use rustproxmoxmcp.Protect.{is_protected, protection_of}
use rustproxmoxmcp.Resolve.{
  GuestIndex, resolve, Intent, AuthorizedGuest, is_destructive, or_false, authorize_guest,
  authorize_resolved, authorize,
}

-- The call would take the guest out of service, or destroy data of it.
abbrev pub disrupts : Intent → Bool
disrupts intent = is_destructive intent.tier || intent.interrupts

-- What an authorization stands for.
pub record IsAuthorized (policy : Cluster) (grant : ProxmoxGrant) (intent : Intent)
    (guest : ResolvedGuest) (a : AuthorizedGuest) : Type 0 where
  pub same_guest : a.guest ≡ guest
  pub in_scope : allows_guest grant (facts guest) ≡ true
  pub may_act : allows_action grant (action intent.tier) ≡ true
  pub observed : a.protection ≡ protection_of policy (some guest) false
  pub same_tier : a.tier ≡ intent.tier
  pub spared :
      (disrupts intent ≡ false)
      ⊎ ((is_protected (protection_of policy (some guest) false) ≡ false)
          ⊎ (intent.override_applies ≡ some true))

module _ (policy : Cluster) (cluster : Text) (vmid : ℕ) (grant : ProxmoxGrant)
    (intent : Intent) where
  spared_of :
      (b : Bool) (o : Option Bool)
      → ((disrupts intent && b) && not (or_false o)) ≡ false
      → (disrupts intent ≡ false) ⊎ ((b ≡ false) ⊎ (o ≡ some true))
  spared_of b none h = ground arith
  spared_of b (some true) h = ground arith
  spared_of b (some false) h = ground arith

  authorize_guest-ok :
      (guest : ResolvedGuest) (a : AuthorizedGuest)
      → authorize_guest policy cluster vmid grant intent guest ≡ ok a
      → IsAuthorized policy grant intent guest a
  unfolding authorize_guest
  authorize_guest-ok guest a h = record {
    same_guest = ground arith;
    in_scope = ground arith;
    may_act = ground arith;
    observed = ground arith;
    same_tier = ground arith;
    spared =
        spared_of (is_protected (protection_of policy (some guest) false)) intent.override_applies
          (ground arith);
  }

  authorize_guest_complete :
      (guest : ResolvedGuest) (a : AuthorizedGuest)
      → IsAuthorized policy grant intent guest a
      → authorize_guest policy cluster vmid grant intent guest ≡ ok a
  unfolding authorize_guest
  authorize_guest_complete guest a i = ground (arith, i.spared)

  authorize_resolved-ok :
      (resolved : Result ResolvedGuest ProxmoxError) (a : AuthorizedGuest)
      → authorize_resolved policy cluster vmid grant intent resolved ≡ ok a
      → (guest : ResolvedGuest) × (resolved ≡ ok guest) × IsAuthorized policy grant intent guest a
  unfolding authorize_resolved
  authorize_resolved-ok (ok guest) a h = (guest, refl, authorize_guest-ok guest a h)
  authorize_resolved-ok (err (not_found what)) a h = absurd (cc)
  authorize_resolved-ok (err e) a h = absurd (cc)

  module _ (index : GuestIndex) (now : ℕ) (reply : Result Json ProxmoxError) where
    -- A call is authorized exactly if the guest resolves, the grant admits it as it is now, the grant
    -- carries the tier, and either the call does not disrupt the guest, or the guest is not
    -- protected, or an override applies. The result names that guest, its protection and the tier.
    pub authorize_iff :
        (a : AuthorizedGuest)
        → ((authorize policy index now cluster vmid grant intent reply).0 ≡ ok a) ↔ (
            (guest : ResolvedGuest) × ((resolve index now cluster vmid reply).0 ≡ ok guest)
            × IsAuthorized policy grant intent guest a)
    unfolding authorize authorize_resolved
    authorize_iff a = (
      λ h. authorize_resolved-ok (resolve index now cluster vmid reply).0 a h,
      λ (guest, e, i). rw (e, authorize_resolved) (authorize_guest_complete guest a i),
    )

-- Whatever the two states of the cluster, its protection policy and the caches, a guest that is
-- absent and a guest out of the caller's scope are answered with one and the same error.
pub authorize_hides_absence :
    (p p' : Cluster) (index index' : GuestIndex) (now now' : ℕ) (cluster : Text) (vmid vmid' : ℕ)
    (grant : ProxmoxGrant) (intent : Intent) (reply reply' : Result Json ProxmoxError) (what : Text)
    (guest : ResolvedGuest)
    → (resolve index now cluster vmid reply).0 ≡ err (not_found what)
    → (resolve index' now' cluster vmid' reply').0 ≡ ok guest
    → allows_guest grant (facts guest) ≡ false
    → (authorize p index now cluster vmid grant intent reply).0
      ≡ (authorize p' index' now' cluster vmid' grant intent reply').0
unfolding authorize
authorize_hides_absence p p' index index' now now' cluster vmid vmid' grant intent reply reply' what
      guest absent resolved outside =
    rw (absent, resolved, authorize_resolved, outside, authorize_guest)
