-- ===== src/Resolve/Cache.antt =====
-- What the index of guests holds.
use rustproxmoxmcp.Prelude.{
  ℕ, ◌≡◌, refl, ap, inl, inr, Option, none, some, arith, Bool-cases, Result, ok, err, ok-injective,
  eqb, if◌then◌else◌,
}
use rustproxmoxmcp.Text.{Text, ◌==◌}
use rustproxmoxmcp.Text.Equality.{eq_of_test}
use rustproxmoxmcp.Json.{Json}
use rustproxmoxmcp.Map.{Map, lookup, insert, lookup-insert, number_key, text_key, lookup-remove}
use rustproxmoxmcp.Error.{ProxmoxError}
use rustproxmoxmcp.Guest.{ResolvedGuest, fetch_guests}
use rustproxmoxmcp.Guest.Listing.{fetch_guests-owned}
use rustproxmoxmcp.Resolve.{
  Snapshot, GuestIndex, lookup_fresh, fresh_guest, publish, resolve, resolve_from, resolve_fetched,
  new, invalidate, invalidate_cluster,
}

-- The guests of a map stand under their own numbers, and belong to the cluster.
abbrev pub Owns : Text → Map ℕ ResolvedGuest → Type 0
Owns cluster guests =
    (n : ℕ) (guest : ResolvedGuest)
    → lookup n guests ≡ some guest
    → (guest.vmid ≡ n) × (guest.cluster ≡ cluster)

-- Every snapshot of the index owns its guests.
pub record IsIndexed (index : GuestIndex) : Type 0 where
  pub owned :
      (cluster : Text) (snapshot : Snapshot)
      → lookup cluster index.snapshots ≡ some snapshot
      → Owns cluster snapshot.guests

snapshot_of : {a b : Snapshot} → ◌≡◌ {A = Option Snapshot} (some a) (some b) → a ≡ b
snapshot_of h = cc

insert-Owns :
    (index : GuestIndex) (cluster : Text) (snapshot : Snapshot)
    → Owns cluster snapshot.guests
    → IsIndexed index
    → (c : Text) (s : Snapshot) → lookup c (insert cluster snapshot index.snapshots) ≡ some s
    → Owns c s.guests
insert-Owns index cluster snapshot o i c s h = elim (Bool-cases (cluster == c)) [
  | inl e ↦
      let same = snapshot_of (rw (lookup-insert cluster c snapshot index.snapshots, e) at h) in
      rw (← (eq_of_test cluster c e), ← same) o
  | inr e ↦ i.owned c s (rw (lookup-insert cluster c snapshot index.snapshots, e) at h)
]

publish-IsIndexed :
    (index : GuestIndex) (generation now : ℕ) (cluster : Text) (guests : Map ℕ ResolvedGuest)
    → Owns cluster guests
    → IsIndexed index
    → IsIndexed (publish index generation cluster now guests)
unfolding publish
publish-IsIndexed index generation now cluster guests o i =
    elim (Bool-cases (eqb index.generation generation)) [
      | inl e ↦ rw e (record {
        owned = insert-Owns index cluster (record { taken = now; guests = guests }) o i;
      })
      | inr e ↦ rw e i
    ]

resolve_fetched-IsIndexed :
    (index : GuestIndex) (now : ℕ) (cluster : Text) (vmid : ℕ)
    (fetched : Result (Map ℕ ResolvedGuest) ProxmoxError)
    → ((guests : Map ℕ ResolvedGuest) → fetched ≡ ok guests → Owns cluster guests)
    → IsIndexed index
    → IsIndexed (resolve_fetched index now cluster vmid fetched).1
unfolding resolve_fetched
resolve_fetched-IsIndexed index now cluster vmid (err e) o i = i
resolve_fetched-IsIndexed index now cluster vmid (ok guests) o i =
    publish-IsIndexed index index.generation now cluster guests (o guests refl) i

resolve_from-IsIndexed :
    (index : GuestIndex) (now : ℕ) (cluster : Text) (vmid : ℕ) (reply : Result Json ProxmoxError)
    (cached : Option ResolvedGuest)
    → IsIndexed index
    → IsIndexed (resolve_from index now cluster vmid reply cached).1
unfolding resolve_from
resolve_from-IsIndexed index now cluster vmid reply (some guest) i = i
resolve_from-IsIndexed index now cluster vmid reply none i =
    resolve_fetched-IsIndexed index now cluster vmid (fetch_guests cluster reply)
      (fetch_guests-owned cluster reply) i

-- Whatever is resolved, every snapshot goes on holding guests of its own cluster, each under its own
-- number.
pub resolve-IsIndexed :
    (index : GuestIndex) (now : ℕ) (cluster : Text) (vmid : ℕ) (reply : Result Json ProxmoxError)
    → IsIndexed index
    → IsIndexed (resolve index now cluster vmid reply).1
unfolding resolve
resolve-IsIndexed index now cluster vmid reply i =
    resolve_from-IsIndexed index now cluster vmid reply (lookup_fresh index now cluster vmid) i

fresh_guest-owned :
    (ttl now : ℕ) (cluster : Text) (vmid : ℕ) (cached : Option Snapshot) (guest : ResolvedGuest)
    → ((snapshot : Snapshot) → cached ≡ some snapshot → Owns cluster snapshot.guests)
    → fresh_guest ttl now vmid cached ≡ some guest
    → (guest.vmid ≡ vmid) × (guest.cluster ≡ cluster)
unfolding fresh_guest
fresh_guest-owned ttl now cluster vmid none guest o h = absurd (cc)
fresh_guest-owned ttl now cluster vmid (some snapshot) guest o h =
    o snapshot refl vmid guest (ground arith)

resolve_fetched-owned :
    (index : GuestIndex) (now : ℕ) (cluster : Text) (vmid : ℕ)
    (fetched : Result (Map ℕ ResolvedGuest) ProxmoxError) (guest : ResolvedGuest)
    → ((guests : Map ℕ ResolvedGuest) → fetched ≡ ok guests → Owns cluster guests)
    → (resolve_fetched index now cluster vmid fetched).0 ≡ ok guest
    → (guest.vmid ≡ vmid) × (guest.cluster ≡ cluster)
unfolding resolve_fetched
resolve_fetched-owned index now cluster vmid (err e) guest o h = absurd (cc)
resolve_fetched-owned index now cluster vmid (ok guests) guest o h =
    o guests refl vmid guest (ground arith)

resolve_from-owned :
    (index : GuestIndex) (now : ℕ) (cluster : Text) (vmid : ℕ) (reply : Result Json ProxmoxError)
    (cached : Option ResolvedGuest) (guest : ResolvedGuest)
    → ((g : ResolvedGuest) → cached ≡ some g → (g.vmid ≡ vmid) × (g.cluster ≡ cluster))
    → (resolve_from index now cluster vmid reply cached).0 ≡ ok guest
    → (guest.vmid ≡ vmid) × (guest.cluster ≡ cluster)
unfolding resolve_from
resolve_from-owned index now cluster vmid reply (some g) guest o h =
    o guest (ap (λ g. some g) (ok-injective h))
resolve_from-owned index now cluster vmid reply none guest o h =
    resolve_fetched-owned index now cluster vmid (fetch_guests cluster reply) guest
      (fetch_guests-owned cluster reply) h

resolve-owned_indexed :
    (index : GuestIndex) (now : ℕ) (cluster : Text) (vmid : ℕ) (reply : Result Json ProxmoxError)
    (guest : ResolvedGuest)
    → IsIndexed index
    → (resolve index now cluster vmid reply).0 ≡ ok guest
    → (guest.vmid ≡ vmid) × (guest.cluster ≡ cluster)
unfolding resolve lookup_fresh
resolve-owned_indexed index now cluster vmid reply guest i h =
    resolve_from-owned index now cluster vmid reply (lookup_fresh index now cluster vmid) guest
      (λ g e.
        fresh_guest-owned index.ttl now cluster vmid (lookup cluster index.snapshots) g
          (i.owned cluster) e)
      h

new-IsIndexed : (ttl : ℕ) → IsIndexed (new ttl)
unfolding lookup
new-IsIndexed ttl = record { owned = λ cluster snapshot h. absurd (cc) }

invalidate-IsIndexed : (index : GuestIndex) → IsIndexed (invalidate index)
unfolding invalidate lookup
invalidate-IsIndexed index = record { owned = λ cluster snapshot h. absurd (cc) }

invalidate_cluster-IsIndexed :
    (index : GuestIndex) (dropped : Text)
    → IsIndexed index
    → IsIndexed (invalidate_cluster dropped index)
unfolding invalidate_cluster
invalidate_cluster-IsIndexed index dropped i = record {
  owned = λ cluster snapshot h. elim (Bool-cases (dropped == cluster)) [
    | inl e ↦ absurd (cc (rw (lookup-remove dropped cluster index.snapshots, e) at h))
    | inr e ↦ i.owned cluster snapshot (rw (lookup-remove dropped cluster index.snapshots, e) at h)
  ];
}

-- The indexes that a process can have: the one that it starts with, and what resolutions and
-- invalidations, in any order, make of it.
pub data IsUsed : GuestIndex → Type 0 where
  started : (ttl : ℕ) → IsUsed (new ttl)
  resolved :
      {index : GuestIndex} (now : ℕ) (cluster : Text) (vmid : ℕ) (reply : Result Json ProxmoxError)
      → IsUsed index
      → IsUsed (resolve index now cluster vmid reply).1
  invalidated : {index : GuestIndex} → IsUsed index → IsUsed (invalidate index)
  cluster_invalidated :
      {index : GuestIndex} (cluster : Text)
      → IsUsed index
      → IsUsed (invalidate_cluster cluster index)

pub IsUsed-IsIndexed : {index : GuestIndex} → IsUsed index → IsIndexed index
IsUsed-IsIndexed (started ttl) = new-IsIndexed ttl
IsUsed-IsIndexed (resolved now cluster vmid reply u) =
    resolve-IsIndexed _ now cluster vmid reply (IsUsed-IsIndexed u)
IsUsed-IsIndexed (invalidated u) = invalidate-IsIndexed _
IsUsed-IsIndexed (cluster_invalidated cluster u) =
    invalidate_cluster-IsIndexed _ cluster (IsUsed-IsIndexed u)

-- Whatever resolutions and invalidations came before, from the start of the process on, a guest that
-- is resolved is the one that was asked for: it has the number, and belongs to the cluster, whether it
-- comes from the cache or from a fetch.
pub resolve-owned :
    (index : GuestIndex) (now : ℕ) (cluster : Text) (vmid : ℕ) (reply : Result Json ProxmoxError)
    (guest : ResolvedGuest)
    → IsUsed index
    → (resolve index now cluster vmid reply).0 ≡ ok guest
    → (guest.vmid ≡ vmid) × (guest.cluster ≡ cluster)
resolve-owned index now cluster vmid reply guest u h =
    resolve-owned_indexed index now cluster vmid reply guest (IsUsed-IsIndexed u) h

pub lookup_fresh-owned :
    (index : GuestIndex) (now : ℕ) (cluster : Text) (vmid : ℕ) (guest : ResolvedGuest)
    → IsUsed index
    → lookup_fresh index now cluster vmid ≡ some guest
    → (guest.vmid ≡ vmid) × (guest.cluster ≡ cluster)
unfolding lookup_fresh
lookup_fresh-owned index now cluster vmid guest u h =
    fresh_guest-owned index.ttl now cluster vmid (lookup cluster index.snapshots) guest
      ((IsUsed-IsIndexed u).owned cluster) h

-- After an invalidation of a cluster the cache has no guest of that cluster, and every other cluster
-- is answered from it as before.
pub lookup_fresh-invalidate_cluster :
    (index : GuestIndex) (dropped : Text) (now : ℕ) (cluster : Text) (vmid : ℕ)
    → lookup_fresh (invalidate_cluster dropped index) now cluster vmid
      ≡ (if dropped == cluster then none else lookup_fresh index now cluster vmid)
unfolding lookup_fresh fresh_guest invalidate_cluster
lookup_fresh-invalidate_cluster index dropped now cluster vmid =
    elim (Bool-cases (dropped == cluster)) [
      | inl e ↦ rw (lookup-remove dropped cluster index.snapshots, e) refl
      | inr e ↦ rw (lookup-remove dropped cluster index.snapshots, e) refl
    ]
