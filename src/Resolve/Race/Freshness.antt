-- ===== src/Resolve/Race/Freshness.antt =====
-- What a cache hit may show while fetches and invalidations run side by side
-- (crates/rust-proxmoxmcp-core/src/resolve.rs).
use rustproxmoxmcp.Prelude.{ℕ, ◌^◌, ◌<◌, ◌≤◌, ◌≡◌, refl, some, Option-cases, inl, inr, arith}
use rustproxmoxmcp.Text.{Text}
use rustproxmoxmcp.Map.{lookup, text_key}
use rustproxmoxmcp.Guest.{ResolvedGuest}
use rustproxmoxmcp.Resolve.{GuestIndex, Snapshot, lookup_fresh, fresh_guest}
use rustproxmoxmcp.Resolve.Race.{World, Reach, initial}
use rustproxmoxmcp.Resolve.Race.Kept.{Inv, not_there}
use rustproxmoxmcp.Resolve.Race.Invariant.{Reach-Inv}

initial-Inv : (ttl : ℕ) (version : Text → ℕ) → Inv (initial ttl version)
unfolding initial
initial-Inv ttl version = record {
  generation = refl;
  bumped_le = λ c. omega arith;
  began_le = λ t f h. ground arith;
  read_before = λ t f h. ground arith;
  current = λ t f h. ground arith;
  pending_le = λ t i h. ground arith;
  promised_le = λ c. omega arith;
  cached = λ c s h. absurd (not_there c s h);
}

-- A cache hit comes from a snapshot that stands in the index.
lookup_fresh-cached :
    (index : GuestIndex) (now : ℕ) (c : Text) (vmid : ℕ) {g : ResolvedGuest}
    → lookup_fresh index now c vmid ≡ some g
    → (s : Snapshot) × (lookup c index.snapshots ≡ some s)
unfolding lookup_fresh fresh_guest
lookup_fresh-cached index now c vmid h = elim (Option-cases (lookup c index.snapshots)) [
  | inl e ↦ absurd (ground (arith, e))
  | inr (s, e) ↦ (s, e)
]

-- From an empty cache, through any interleaving of fetches, publications, invalidations in their
-- two steps, changes of the clusters and time, as long as fewer than 2^64 invalidations have begun:
-- a cache hit is never taken from a snapshot older than the state in which an invalidation of its
-- cluster was called that has ended since.
pub lookup_fresh-not_stale :
    (ttl : ℕ) (version : Text → ℕ) (w : World) (c : Text) (vmid : ℕ) (g : ResolvedGuest)
    → Reach (initial ttl version) w
    → w.bumps < 2 ^ 64
    → lookup_fresh w.index w.now c vmid ≡ some g
    → w.promised c ≤ w.shown c
lookup_fresh-not_stale ttl version w c vmid g reached room hit =
    let (s, stood) = lookup_fresh-cached w.index w.now c vmid hit in
    (Reach-Inv (initial-Inv ttl version) reached room).cached c s stood
