-- ===== src/Resolve/Race.antt =====
-- Concurrent callers of the index (crates/rust-proxmoxmcp-core/src/resolve.rs): fetches in flight,
-- invalidations in two steps, and a cluster that changes meanwhile. A step is one critical section,
-- one atomic operation on the generation, or one event outside the index.
pub mod Kept
pub mod Invariant
pub mod Freshness
use rustproxmoxmcp.Prelude.{
  ℕ, zero, ◌+◌, ◌^◌, ◌%◌, ◌<◌, ◌≡◌, ◌&&◌, leb, Option, none, some, Bool, true, false, if◌then◌else◌,
  eqb,
}
use rustproxmoxmcp.Text.{Text, ◌==◌}
use rustproxmoxmcp.Map.{Map}
use rustproxmoxmcp.Guest.{ResolvedGuest}
use rustproxmoxmcp.Resolve.{GuestIndex, new, publish, bump, clear, clear_cluster}

-- A fetch in flight: the generation that was read before it, and what the cluster answered, if it
-- has. `version` counts the changes of the cluster that the answer shows.
pub record Fetch : Type 0 where
  pub cluster : Text
  pub generation_before : ℕ
  pub began : ℕ
  pub answer : Option (Map ℕ ResolvedGuest × ℕ)

-- What an invalidation has to drop: every snapshot, or that of one cluster.
pub data Scope : Type 0 where
  everything : Scope
  only : Text → Scope

unfoldable pub drops : Scope → Text → Bool
drops everything cluster = true
drops (only c) cluster = c == cluster

unfoldable pub clear_scope : Scope → GuestIndex → GuestIndex
clear_scope everything index = clear index
clear_scope (only cluster) index = clear_cluster cluster index

-- An invalidation between its two steps, with the version of each cluster when it was called.
pub record Invalidation : Type 0 where
  pub scope : Scope
  pub version : Text → ℕ

-- The index, with what the world does around it. `bumps` counts the invalidations that have begun,
-- `bumped` has the version of each cluster when the last one did, `shown` the version that the
-- snapshot of each cluster shows, and `promised` the newest version at which an invalidation of the
-- cluster was called that is over by now. The code has none of these four.
pub record World : Type 0 where
  pub index : GuestIndex
  pub now : ℕ
  pub version : Text → ℕ
  pub fetches : ℕ → Option Fetch
  pub invalidations : ℕ → Option Invalidation
  pub bumps : ℕ
  pub bumped : Text → ℕ
  pub shown : Text → ℕ
  pub promised : Text → ℕ

unfoldable pub at_task {ℓ} : {A : Type ℓ} → (ℕ → A) → ℕ → A → ℕ → A
at_task f task a other = if eqb task other then a else f other

unfoldable pub at_cluster {ℓ} : {A : Type ℓ} → (Text → A) → Text → A → Text → A
at_cluster f cluster a other = if cluster == other then a else f other

-- What `promised` is after an invalidation is over.
unfoldable pub promise : Invalidation → (Text → ℕ) → Text → ℕ
unfolding drops
promise inv promised cluster =
    if drops inv.scope cluster && leb (promised cluster) (inv.version cluster)
    then inv.version cluster
    else promised cluster

unfoldable pub show_published : GuestIndex → ℕ → Text → ℕ → (Text → ℕ) → Text → ℕ
unfolding at_cluster
show_published index generation_before cluster version shown =
    if eqb index.generation generation_before then at_cluster shown cluster version else shown

pub data Step (w : World) : World → Type 0 where
  -- a guest of the cluster changes
  change :
      (cluster : Text)
      → Step w (record w { version = at_cluster w.version cluster (w.version cluster + 1) })
  -- time passes
  wait : (t : ℕ) → Step w (record w { now = w.now + t })
  -- a caller that missed the cache reads the generation
  begin :
      (task : ℕ) (cluster : Text)
      → Step w (record w {
        fetches = at_task w.fetches task (
            some (record {
              cluster = cluster;
              generation_before = w.index.generation;
              began = w.bumps;
              answer = none;
            }));
      })
  -- the cluster answers the fetch
  reply :
      (task : ℕ) (f : Fetch) (guests : Map ℕ ResolvedGuest)
      → w.fetches task ≡ some f
      → Step w (record w {
        fetches =
            at_task w.fetches task
              (some (record f { answer = some (guests, w.version f.cluster) }));
      })
  -- the caller publishes the answer, if the generation has not moved on
  keep :
      (task : ℕ) (f : Fetch) (guests : Map ℕ ResolvedGuest) (version : ℕ)
      → w.fetches task ≡ some f
      → f.answer ≡ some (guests, version)
      → Step w (record w {
        index = publish w.index f.generation_before f.cluster w.now guests;
        shown = show_published w.index f.generation_before f.cluster version w.shown;
        fetches = at_task w.fetches task none;
      })
  -- an invalidation begins: the generation moves on
  begin_invalidation :
      (task : ℕ) (scope : Scope)
      → Step w (record w {
        index = bump w.index;
        bumps = w.bumps + 1;
        bumped = w.version;
        invalidations =
            at_task w.invalidations task (some (record { scope = scope; version = w.version }));
      })
  -- and ends: the snapshots are dropped
  end_invalidation :
      (task : ℕ) (inv : Invalidation)
      → w.invalidations task ≡ some inv
      → Step w (record w {
        index = clear_scope inv.scope w.index;
        promised = promise inv w.promised;
        invalidations = at_task w.invalidations task none;
      })

pub data Reach (w : World) : World → Type 0 where
  start : Reach w w
  next : {u v : World} → Reach w u → Step u v → Reach w v

-- The world when the process starts: no snapshot is cached, nothing is in flight, no invalidation
-- was called. The clusters are in any version.
unfoldable pub initial : ℕ → (Text → ℕ) → World
initial ttl version = record {
  index = new ttl;
  now = 0;
  version = version;
  fetches = λ t. none;
  invalidations = λ t. none;
  bumps = 0;
  bumped = λ c. 0;
  shown = λ c. 0;
  promised = λ c. 0;
}
