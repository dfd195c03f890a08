-- ===== src/Resolve/View.antt =====
-- What two indexes have in common that give the same answers for a cluster
-- (crates/rust-proxmoxmcp-core/src/resolve.rs).
use rustproxmoxmcp.Prelude.{
  ℕ, ◌≡◌, refl, sym, ap, ◌∙◌, Option, none, some, arith, eqb_iff, Result, ok, err,
}
use rustproxmoxmcp.Text.{Text}
use rustproxmoxmcp.Text.Equality.{eq_refl}
use rustproxmoxmcp.Json.{Json}
use rustproxmoxmcp.Map.{Map, lookup, lookup-insert, text_key, number_key}
use rustproxmoxmcp.Error.{ProxmoxError}
use rustproxmoxmcp.Grant.{ProxmoxGrant}
use rustproxmoxmcp.Inventory.{Cluster}
use rustproxmoxmcp.Guest.{ResolvedGuest, fetch_guests}
use rustproxmoxmcp.Resolve.{
  GuestIndex, Intent, fresh_guest, lookup_fresh, publish, invalidate_cluster, resolve, resolve_from,
  resolve_fetched, authorize, authorize_resolved,
}
use rustproxmoxmcp.Resolve.Cache.{lookup_fresh-invalidate_cluster}

module _ (index index' : GuestIndex) (cluster : Text) where
  -- The two indexes give the same answers for the cluster, at any time.
  abbrev pub SameView : Type 0
  SameView =
      (now : ℕ) (vmid : ℕ)
      → lookup_fresh index now cluster vmid ≡ lookup_fresh index' now cluster vmid

resolve_from-view :
    (index index' : GuestIndex) (now : ℕ) (cluster : Text) (vmid : ℕ)
    (reply : Result Json ProxmoxError) (cached : Option ResolvedGuest)
    → (resolve_from index now cluster vmid reply cached).0
      ≡ (resolve_from index' now cluster vmid reply cached).0
unfolding resolve_from resolve_fetched
resolve_from-view index index' now cluster vmid reply (some guest) = refl
resolve_from-view index index' now cluster vmid reply none = ground arith

pub resolve-view :
    (index index' : GuestIndex) (now : ℕ) (cluster : Text) (vmid : ℕ)
    (reply : Result Json ProxmoxError)
    → SameView index index' cluster
    → (resolve index now cluster vmid reply).0 ≡ (resolve index' now cluster vmid reply).0
unfolding resolve
resolve-view index index' now cluster vmid reply same =
    ap (λ c. (resolve_from index now cluster vmid reply c).0) (same now vmid)
    ∙ resolve_from-view index index' now cluster vmid reply (lookup_fresh index' now cluster vmid)

pub authorize-view :
    (policy : Cluster) (index index' : GuestIndex) (now : ℕ) (cluster : Text) (vmid : ℕ)
    (grant : ProxmoxGrant) (intent : Intent) (reply : Result Json ProxmoxError)
    → SameView index index' cluster
    → (authorize policy index now cluster vmid grant intent reply).0
      ≡ (authorize policy index' now cluster vmid grant intent reply).0
unfolding authorize
authorize-view policy index index' now cluster vmid grant intent reply same =
    ap (authorize_resolved policy cluster vmid grant intent)
      (resolve-view index index' now cluster vmid reply same)

pub publish-view :
    (index : GuestIndex) (taken : ℕ) (cluster : Text) (guests : Map ℕ ResolvedGuest) (now vmid : ℕ)
    → lookup_fresh (publish index index.generation cluster taken guests) now cluster vmid
      ≡ fresh_guest index.ttl now vmid (some (record { taken = taken; guests = guests }))
unfolding publish lookup_fresh
publish-view index taken cluster guests now vmid =
    rw
      (
        (eqb_iff index.generation index.generation).1 refl,
        lookup-insert cluster cluster (record { taken = taken; guests = guests }) index.snapshots,
        eq_refl cluster,
      )
      refl

resolve_fetched-view :
    (index index' : GuestIndex) (now : ℕ) (cluster : Text) (vmid : ℕ)
    (fetched : Result (Map ℕ ResolvedGuest) ProxmoxError)
    → index.ttl ≡ index'.ttl
    → SameView index index' cluster
    → SameView
        (resolve_fetched index now cluster vmid fetched).1
        (resolve_fetched index' now cluster vmid fetched).1
        cluster
unfolding resolve_fetched
resolve_fetched-view index index' now cluster vmid (err e) ttl same = same
resolve_fetched-view index index' now cluster vmid (ok guests) ttl same = λ n v.
    publish-view index now cluster guests n v
    ∙ ap (λ t. fresh_guest t n v (some (record { taken = now; guests = guests }))) ttl
    ∙ sym (publish-view index' now cluster guests n v)

resolve_from_view_kept :
    (index index' : GuestIndex) (now : ℕ) (cluster : Text) (vmid : ℕ)
    (reply : Result Json ProxmoxError) (cached : Option ResolvedGuest)
    → index.ttl ≡ index'.ttl
    → SameView index index' cluster
    → SameView
        (resolve_from index now cluster vmid reply cached).1
        (resolve_from index' now cluster vmid reply cached).1
        cluster
unfolding resolve_from
resolve_from_view_kept index index' now cluster vmid reply (some guest) ttl same = same
resolve_from_view_kept index index' now cluster vmid reply none ttl same =
    resolve_fetched-view index index' now cluster vmid (fetch_guests cluster reply) ttl same

pub resolve_view_kept :
    (index index' : GuestIndex) (now : ℕ) (cluster : Text) (vmid : ℕ)
    (reply : Result Json ProxmoxError)
    → index.ttl ≡ index'.ttl
    → SameView index index' cluster
    → SameView
        (resolve index now cluster vmid reply).1
        (resolve index' now cluster vmid reply).1
        cluster
unfolding resolve
resolve_view_kept index index' now cluster vmid reply ttl same = λ n v.
    ap (λ c. lookup_fresh (resolve_from index now cluster vmid reply c).1 n cluster v)
      (same now vmid)
    ∙ resolve_from_view_kept index index' now cluster vmid reply
        (lookup_fresh index' now cluster vmid) ttl same n v

pub dropped-view :
    (index index' : GuestIndex) (cluster : Text)
    → SameView (invalidate_cluster cluster index) (invalidate_cluster cluster index') cluster
dropped-view index index' cluster now vmid = dropped index now vmid ∙ sym (dropped index' now vmid)
  where
    dropped :
        (i : GuestIndex) (now vmid : ℕ)
        → lookup_fresh (invalidate_cluster cluster i) now cluster vmid ≡ none
    dropped i now vmid = rw (lookup_fresh-invalidate_cluster, eq_refl cluster) refl

pub dropped_ttl :
    (index : GuestIndex) (cluster : Text) → (invalidate_cluster cluster index).ttl ≡ index.ttl
unfolding invalidate_cluster
dropped_ttl index cluster = refl

-- Once the snapshot of the cluster is dropped, a guest that the cluster lists is found.
pub resolve-dropped :
    (index : GuestIndex) (now : ℕ) (cluster : Text) (vmid : ℕ) (reply : Result Json ProxmoxError)
    (guests : Map ℕ ResolvedGuest) (guest : ResolvedGuest)
    → fetch_guests cluster reply ≡ ok guests
    → lookup vmid guests ≡ some guest
    → (resolve (invalidate_cluster cluster index) now cluster vmid reply).0 ≡ ok guest
unfolding resolve resolve_from resolve_fetched
resolve-dropped index now cluster vmid reply guests guest fetched found =
    rw (lookup_fresh-invalidate_cluster, eq_refl cluster) (rw (resolve_from, fetched, found) refl)
