-- ===== src/Resolve/Race/Kept.antt =====
-- The invariant of the cache under concurrent callers, and what stands after each kind of update
-- (crates/rust-proxmoxmcp-core/src/resolve.rs).
use rustproxmoxmcp.Prelude.{
  ℕ, ◌+◌, ◌^◌, ◌%◌, ◌≤◌, ◌≡◌, refl, Option, none, some, false, eqb, arith, Bool-cases, inl, inr,
  ◌⊎◌, [],
}
use rustproxmoxmcp.Text.{Text}
use rustproxmoxmcp.Text.Equality.{eq_iff}
use rustproxmoxmcp.Map.{Map, lookup, lookup-insert, lookup-remove, text_key}
use rustproxmoxmcp.Guest.{ResolvedGuest}
use rustproxmoxmcp.Resolve.{GuestIndex, Snapshot, publish, clear, clear_cluster}
use rustproxmoxmcp.Resolve.Race.{
  World, Fetch, Scope, everything, only, drops, clear_scope, Invalidation, at_task, at_cluster,
  show_published,
}

-- An answer that was got since the last invalidation began shows what that one was called for.
abbrev pub IsCurrent : World → Fetch → Type 0
IsCurrent w f =
    (guests : Map ℕ ResolvedGuest) (v : ℕ)
    → f.answer ≡ some (guests, v)
    → f.began ≡ w.bumps
    → w.bumped f.cluster ≤ v

pub record Inv (w : World) : Type 0 where
  pub generation : w.index.generation ≡ w.bumps % 2 ^ 64
  pub bumped_le : (c : Text) → w.bumped c ≤ w.version c
  pub began_le : (t : ℕ) (f : Fetch) → w.fetches t ≡ some f → f.began ≤ w.bumps
  pub read_before :
      (t : ℕ) (f : Fetch) → w.fetches t ≡ some f → f.generation_before ≡ f.began % 2 ^ 64
  pub current : (t : ℕ) (f : Fetch) → w.fetches t ≡ some f → IsCurrent w f
  pub pending_le :
      (t : ℕ) (i : Invalidation)
      → w.invalidations t ≡ some i
      → (c : Text) → i.version c ≤ w.bumped c
  pub promised_le : (c : Text) → w.promised c ≤ w.bumped c
  pub cached :
      (c : Text) (s : Snapshot) → lookup c w.index.snapshots ≡ some s → w.promised c ≤ w.shown c

module _ {A : Type 0} where
  -- What stands at a task after an update: the new value, or an old one.
  pub at_task-some :
      (P : A → Type 0) (f : ℕ → Option A) (task t : ℕ) (new : Option A) {a : A}
      → at_task f task new t ≡ some a
      → (new ≡ some a → P a)
      → (f t ≡ some a → P a)
      → P a
  unfolding at_task
  at_task-some P f task t new h fresh old = elim (Bool-cases (eqb task t)) [
    | inl e ↦ fresh (rw e at h)
    | inr e ↦ old (rw e at h)
  ]

  pub at_task-cleared :
      (f : ℕ → Option A) (task t : ℕ) {a : A} → at_task f task none t ≡ some a → f t ≡ some a
  unfolding at_task
  at_task-cleared f task t h = ground arith

pub at_cluster-grows :
    (f : Text → ℕ) (cluster c : Text) → f c ≤ at_cluster f cluster (f cluster + 1) c
unfolding at_cluster
at_cluster-grows f cluster c = ground (arith, eq_iff cluster c)

pub change-Inv :
    {w : World} (cluster : Text)
    → Inv w
    → Inv (record w { version = at_cluster w.version cluster (w.version cluster + 1) })
change-Inv {w} cluster i = record {
  generation = i.generation;
  bumped_le = λ c. omega (arith, i.bumped_le c, at_cluster-grows w.version cluster c);
  began_le = i.began_le;
  read_before = i.read_before;
  current = i.current;
  pending_le = i.pending_le;
  promised_le = i.promised_le;
  cached = i.cached;
}

pub clear_scope-generation :
    (scope : Scope) (index : GuestIndex) → (clear_scope scope index).generation ≡ index.generation
unfolding clear_scope clear clear_cluster
clear_scope-generation everything index = refl
clear_scope-generation (only c) index = refl

pub not_there : (c : Text) (s : Snapshot) → lookup c [] ≡ some s → ⊥
unfolding lookup
not_there c s h = cc

-- A snapshot that is left is not in the scope, and stood there before.
pub clear_scope-kept :
    (scope : Scope) (index : GuestIndex) (c : Text) (s : Snapshot)
    → lookup c (clear_scope scope index).snapshots ≡ some s
    → (drops scope c ≡ false) × (lookup c index.snapshots ≡ some s)
unfolding clear_scope clear clear_cluster drops
clear_scope-kept everything index c s h = absurd (not_there c s h)
clear_scope-kept (only d) index c s h = ground (arith, lookup-remove d c index.snapshots)

pub publish-generation :
    (index : GuestIndex) (g now : ℕ) (cluster : Text) (guests : Map ℕ ResolvedGuest)
    → (publish index g cluster now guests).generation ≡ index.generation
unfolding publish
publish-generation index g now cluster guests = ground arith

-- The snapshot after a publication: the new one, where the generations agree, or an old one.
pub publish-kept :
    (index : GuestIndex) (g now : ℕ) (cluster c : Text) (guests : Map ℕ ResolvedGuest) (v : ℕ)
    (shown : Text → ℕ) (s : Snapshot)
    → lookup c (publish index g cluster now guests).snapshots ≡ some s
    → ((index.generation ≡ g) × (cluster ≡ c) × (show_published index g cluster v shown c ≡ v))
      ⊎ ((lookup c index.snapshots ≡ some s) × (show_published index g cluster v shown c ≡ shown c))
unfolding publish show_published at_cluster
publish-kept index g now cluster c guests v shown s h = ground (
  arith,
  lookup-insert cluster c (record { taken = now; guests = guests }) index.snapshots,
  eq_iff cluster c,
)
