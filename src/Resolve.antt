-- ===== src/Resolve.antt =====
-- crates/rust-proxmoxmcp-core/src/resolve.rs and authorized.rs: the index of guests with its cache,
-- and stage-2 authorization. The clock and the reply of the cluster are arguments.
pub mod Cache
pub mod Gate
pub mod View
pub mod Found
pub mod Race
use rustproxmoxmcp.Prelude.{
  ℕ, ◌+◌, ◌-◌, ◌^◌, ◌%◌, Bool, true, false, not, ◌&&◌, ◌||◌, Option, none, some, List, [], ◌∷◌,
  ◌++◌, ltb, eqb, if◌then◌else◌, Result, ok, err, ◌>>=◌, ok_or,
}
use rustproxmoxmcp.Text.{Text, codes}
use rustproxmoxmcp.Text.Number.{decimal}
use rustproxmoxmcp.Json.{Json}
use rustproxmoxmcp.Map.{Map, lookup, insert, remove, number_key, text_key}
use rustproxmoxmcp.Error.{
  ProxmoxError, http, api, unauthorized, denied, not_found, malformed, config, unknown_cluster,
  guest_out_of_scope,
}
use rustproxmoxmcp.Grant.{ProxmoxGrant, allows_guest, allows_action}
use rustproxmoxmcp.Inventory.{Cluster}
use rustproxmoxmcp.Guest.{ResolvedGuest, facts, fetch_guests}
use rustproxmoxmcp.Tier.{Tier, action, interrupts_service}
use rustproxmoxmcp.Protect.{Protection, is_protected, protection_of, summary}

pub record Snapshot : Type 0 where
  pub taken : ℕ
  pub guests : Map ℕ ResolvedGuest

pub record GuestIndex : Type 0 where
  pub ttl : ℕ
  pub snapshots : Map Text Snapshot
  pub generation : ℕ

-- `GuestIndex::new`
abbrev pub new : ℕ → GuestIndex
new ttl = record { ttl = ttl; snapshots = []; generation = 0 }

unfoldable pub fresh_guest : ℕ → ℕ → ℕ → Option Snapshot → Option ResolvedGuest
fresh_guest ttl now vmid none = none
fresh_guest ttl now vmid (some snapshot) =
    if ltb ttl (now - snapshot.taken) then none else lookup vmid snapshot.guests

-- `lookup_fresh`; the lock is not poisoned
unfoldable pub lookup_fresh : GuestIndex → ℕ → Text → ℕ → Option ResolvedGuest
unfolding fresh_guest
lookup_fresh index now cluster vmid =
    fresh_guest index.ttl now vmid (lookup cluster index.snapshots)

-- The critical section of `resolve`: what a fetch read is kept unless the generation has moved on.
unfoldable pub publish : GuestIndex → ℕ → Text → ℕ → Map ℕ ResolvedGuest → GuestIndex
publish index generation_before cluster now guests =
    if eqb index.generation generation_before
    then record index {
      snapshots = insert cluster (record { taken = now; guests = guests }) index.snapshots;
    }
    else index

-- `generation.fetch_add(1, …)`, in 64 bits
unfoldable pub bump : GuestIndex → GuestIndex
bump index = record index { generation = (index.generation + 1) % 2 ^ 64 }

-- `snapshots.clear()`
unfoldable pub clear : GuestIndex → GuestIndex
clear index = record index { snapshots = [] }

-- `snapshots.remove(cluster)`
unfoldable pub clear_cluster : Text → GuestIndex → GuestIndex
clear_cluster cluster index = record index { snapshots = remove cluster index.snapshots }

unfoldable pub invalidate : GuestIndex → GuestIndex
unfolding bump clear
invalidate index = clear (bump index)

unfoldable pub invalidate_cluster : Text → GuestIndex → GuestIndex
unfolding bump clear_cluster
invalidate_cluster cluster index = clear_cluster cluster (bump index)

-- `"guest {vmid} in cluster {cluster}"`
missing_guest : Text → ℕ → ProxmoxError
missing_guest cluster vmid =
    not_found (codes "guest " ++ (decimal vmid ++ (codes " in cluster " ++ cluster)))

-- `resolve` from the fetch on, where nothing else touches the index in between
resolve_fetched :
    GuestIndex
    → ℕ
    → Text
    → ℕ
    → Result (Map ℕ ResolvedGuest) ProxmoxError
    → Result ResolvedGuest ProxmoxError × GuestIndex
resolve_fetched index now cluster vmid (err e) = (err e, index)
resolve_fetched index now cluster vmid (ok guests) = (
  ok_or (lookup vmid guests) (missing_guest cluster vmid),
  publish index index.generation cluster now guests,
)

resolve_from :
    GuestIndex
    → ℕ
    → Text
    → ℕ
    → Result Json ProxmoxError
    → Option ResolvedGuest
    → Result ResolvedGuest ProxmoxError × GuestIndex
resolve_from index now cluster vmid reply (some guest) = (ok guest, index)
resolve_from index now cluster vmid reply none =
    resolve_fetched index now cluster vmid (fetch_guests cluster reply)

-- `resolve`: the reply is what the client gets, if it asks
unfoldable pub resolve :
    GuestIndex
    → ℕ
    → Text
    → ℕ
    → Result Json ProxmoxError
    → Result ResolvedGuest ProxmoxError × GuestIndex
unfolding resolve_from resolve_fetched missing_guest
resolve index now cluster vmid reply =
    resolve_from index now cluster vmid reply (lookup_fresh index now cluster vmid)

pub record Intent : Type 0 where
  pub tier : Tier
  pub interrupts : Bool
  pub override_applies : Option Bool

-- `Intent::read`
abbrev pub intent_read : Intent
intent_read = record { tier = Tier.read; interrupts = false; override_applies = none }

-- `Intent::low`
abbrev pub intent_low : Text → Intent
intent_low tool = record {
  tier = Tier.low;
  interrupts = interrupts_service tool;
  override_applies = none;
}

-- `Intent::low_with_override`
abbrev pub intent_low_with_override : Text → Bool → Intent
intent_low_with_override tool applies = record (intent_low tool) { override_applies = some applies }

-- `Intent::destructive`
abbrev pub intent_destructive : Bool → Intent
intent_destructive applies = record {
  tier = Tier.destructive;
  interrupts = false;
  override_applies = some applies;
}

pub record AuthorizedGuest : Type 0 where
  pub guest : ResolvedGuest
  pub protection : Protection
  pub tier : Tier

unfoldable pub is_destructive : Tier → Bool
is_destructive Tier.destructive = true
is_destructive _ = false

-- `{tier:?}`
tier_name : Tier → Text
tier_name Tier.read = codes "Read"
tier_name Tier.low = codes "Low"
tier_name Tier.destructive = codes "Destructive"

abbrev or_false : Option Bool → Bool
or_false none = false
or_false (some b) = b

no_action : Tier → ProxmoxError
no_action tier =
    denied (codes "caller grant does not carry the " ++ (tier_name tier ++ codes " action tier"))

needs_waiver : ℕ → Protection → Tier → ProxmoxError
needs_waiver vmid protection tier = denied (
    codes "guest "
    ++ (decimal vmid
        ++ (codes " is protected ("
            ++ (summary protection
                ++ (codes "); "
                    ++ ((if is_destructive tier
                          then codes "a destructive call"
                          else codes "interrupting a protected guest")
                        ++ codes " needs a waiver"))))))

-- The checks of `authorize` on a guest that was resolved.
authorize_guest :
    Cluster → Text → ℕ → ProxmoxGrant → Intent → ResolvedGuest → Result AuthorizedGuest ProxmoxError
authorize_guest policy cluster vmid grant intent guest =
    let protection = protection_of policy (some guest) false in
    if not (allows_guest grant (facts guest))
    then err (guest_out_of_scope cluster)
    else if not (allows_action grant (action intent.tier))
    then err (no_action intent.tier)
    else if (is_destructive intent.tier || intent.interrupts)
        && is_protected protection
        && not (or_false intent.override_applies)
    then err (needs_waiver vmid protection intent.tier)
    else ok (record { guest = guest; protection = protection; tier = intent.tier })

-- An absent guest is answered as one out of scope is; any other error is passed on.
authorize_resolved :
    Cluster
    → Text
    → ℕ
    → ProxmoxGrant
    → Intent
    → Result ResolvedGuest ProxmoxError
    → Result AuthorizedGuest ProxmoxError
authorize_resolved policy cluster vmid grant intent (ok guest) =
    authorize_guest policy cluster vmid grant intent guest
authorize_resolved policy cluster vmid grant intent (err (not_found what)) =
    err (guest_out_of_scope cluster)
authorize_resolved policy cluster vmid grant intent (err other) = err other

-- `authorize`; `policy` is the inventory entry of the client's cluster
unfoldable pub authorize :
    Cluster
    → GuestIndex
    → ℕ
    → Text
    → ℕ
    → ProxmoxGrant
    → Intent
    → Result Json ProxmoxError
    → Result AuthorizedGuest ProxmoxError × GuestIndex
unfolding authorize_guest authorize_resolved no_action needs_waiver tier_name is_destructive
authorize policy index now cluster vmid grant intent reply =
    let (resolved, index') = resolve index now cluster vmid reply in
    (authorize_resolved policy cluster vmid grant intent resolved, index')
