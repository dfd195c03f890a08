-- ===== src/Server/Live.antt =====
-- The guest that a call is authorized for is the one that it names
-- (crates/rust-proxmoxmcp/src/server/mod.rs).
use rustproxmoxmcp.Prelude.{ℕ, ◌≡◌, ◌⊎◌, inl, inr, Bool, Result, ok}
use rustproxmoxmcp.Text.{Text}
use rustproxmoxmcp.Json.{Json}
use rustproxmoxmcp.Error.{ProxmoxError}
use rustproxmoxmcp.Grant.{ProxmoxGrant}
use rustproxmoxmcp.Inventory.{Cluster}
use rustproxmoxmcp.Guest.{ResolvedGuest}
use rustproxmoxmcp.Guest.Listing.{fetch_guests-owned}
use rustproxmoxmcp.Protect.{DestructiveAttempt}
use rustproxmoxmcp.Resolve.{GuestIndex, Intent, AuthorizedGuest, resolve, invalidate_cluster}
use rustproxmoxmcp.Resolve.Gate.{authorize_iff}
use rustproxmoxmcp.Resolve.Found.{IsListed, IsCached, resolve-found, resolve-kept, dropped-IsCached}
use rustproxmoxmcp.Server.{
  ProxmoxServer, Moment, override_applies, override_for, authorize_with_override,
}

-- One of the two replies of a call lists the guest under the number.
abbrev pub IsListedNow : Text → ℕ → Moment → Moment → ResolvedGuest → Type 0
IsListedNow cluster vmid first second guest =
    IsListed cluster vmid first.reply guest ⊎ IsListed cluster vmid second.reply guest

-- The guest has the number, belongs to the cluster, and is listed by one of the two replies.
pub record IsLive (cluster : Text) (vmid : ℕ) (first second : Moment) (guest : ResolvedGuest)
    : Type 0 where
  pub same_vmid : guest.vmid ≡ vmid
  pub same_cluster : guest.cluster ≡ cluster
  pub listed : IsListedNow cluster vmid first second guest

IsListed-owned :
    (cluster : Text) (vmid : ℕ) (reply : Result Json ProxmoxError) (guest : ResolvedGuest)
    → IsListed cluster vmid reply guest
    → (guest.vmid ≡ vmid) × (guest.cluster ≡ cluster)
IsListed-owned cluster vmid reply guest (guests, fetched, found) =
    fetch_guests-owned cluster reply guests fetched vmid guest found

pub IsListedNow-IsLive :
    (cluster : Text) (vmid : ℕ) (first second : Moment) (guest : ResolvedGuest)
    → IsListedNow cluster vmid first second guest
    → IsLive cluster vmid first second guest
IsListedNow-IsLive cluster vmid first second guest seen =
    let (number, home) : (guest.vmid ≡ vmid) × (guest.cluster ≡ cluster) = elim seen [
      | inl l ↦ IsListed-owned cluster vmid first.reply guest l
      | inr l ↦ IsListed-owned cluster vmid second.reply guest l
    ] in
    record { same_vmid = number; same_cluster = home; listed = seen }

module _ (server : ProxmoxServer) (policy : Cluster) (index : GuestIndex) (first second : Moment)
    (cluster : Text) (vmid : ℕ) (grant : ProxmoxGrant) (attempt : DestructiveAttempt)
    (intent : Bool → Intent) where
  -- The guest that is authorized is cached under the number, or listed under it by one of the replies.
  pub authorize_with_override-found :
      (a : AuthorizedGuest)
      → (authorize_with_override server policy index first second cluster vmid grant attempt
          intent).0
        ≡ ok a
      → IsCached index cluster vmid a.guest ⊎ IsListedNow cluster vmid first second a.guest
  unfolding authorize_with_override
  authorize_with_override-found a h =
      let index' = (resolve index first.now cluster vmid first.reply).1 in
      let (guest, resolved, i) =
        (authorize_iff policy cluster vmid grant
            (intent (
              override_applies (
                override_for server policy cluster vmid first.now_unix attempt
                  (resolve index first.now cluster vmid first.reply).0)))
            index' second.now second.reply a).0
          h in
      rw i.same_guest
        (elim (resolve-found index' second.now cluster vmid second.reply guest resolved) [
          | inr listed ↦ inr (inr listed)
          | inl cached ↦
              elim (resolve-kept index first.now cluster vmid first.reply vmid guest cached) [
                | inl before ↦ inl before
                | inr listed ↦ inr (inl listed)
              ]
        ])

module _ (server : ProxmoxServer) (policy : Cluster) (index : GuestIndex) (first second : Moment)
    (cluster : Text) (vmid : ℕ) (grant : ProxmoxGrant) (attempt : DestructiveAttempt)
    (intent : Bool → Intent) where
  -- Once the snapshot of the cluster is dropped, the guest that is authorized is a live one.
  pub authorize_with_override-IsLive :
      (a : AuthorizedGuest)
      → (authorize_with_override server policy
          (invalidate_cluster cluster index)
          first
          second
          cluster
          vmid
          grant
          attempt
          intent).0
        ≡ ok a
      → IsLive cluster vmid first second a.guest
  authorize_with_override-IsLive a h =
      elim (authorize_with_override-found server policy (invalidate_cluster cluster index) first
        second cluster vmid grant attempt intent a h) [
          | inl cached ↦ absurd (dropped-IsCached index cluster vmid a.guest cached)
          | inr listed ↦ IsListedNow-IsLive cluster vmid first second a.guest listed
        ]
