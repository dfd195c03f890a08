-- ===== src/Resolve/Race/Invariant.antt =====
-- Every step of the world keeps the invariant of the cache
-- (crates/rust-proxmoxmcp-core/src/resolve.rs).
use rustproxmoxmcp.Prelude.{ℕ, ◌+◌, ◌^◌, ◌%◌, ◌<◌, ◌≤◌, ◌≡◌, refl, none, some, arith, inl, inr}
use rustproxmoxmcp.Text.{Text}
use rustproxmoxmcp.Map.{Map, lookup, text_key}
use rustproxmoxmcp.Guest.{ResolvedGuest}
use rustproxmoxmcp.Resolve.{Snapshot, publish, bump}
use rustproxmoxmcp.Resolve.Race.{
  World, Fetch, Scope, clear_scope, Invalidation, at_task, promise, show_published, Step, change,
  wait, begin, reply, keep, begin_invalidation, end_invalidation, Reach, start, next,
}
use rustproxmoxmcp.Resolve.Race.Kept.{
  IsCurrent, Inv, at_task-some, at_task-cleared, change-Inv, clear_scope-generation,
  clear_scope-kept, publish-generation, publish-kept,
}

module _ {w : World} (i : Inv w) where
  begin-Inv :
      (task : ℕ) (new : Fetch)
      → new.generation_before ≡ w.index.generation
      → new.began ≡ w.bumps
      → new.answer ≡ none
      → Inv (record w { fetches = at_task w.fetches task (some new) })
  begin-Inv task new g b a = record {
    generation = i.generation;
    bumped_le = i.bumped_le;
    began_le = λ t f h.
        at_task-some (λ f. f.began ≤ w.bumps) w.fetches task t (some new) h (λ e. ground arith)
          (λ e. i.began_le t f e);
    read_before = λ t f h.
        at_task-some (λ f. f.generation_before ≡ f.began % 2 ^ 64) w.fetches task t (some new) h
          (λ e. ground (arith, i.generation)) (λ e. i.read_before t f e);
    current = λ t f h.
        at_task-some (IsCurrent w) w.fetches task t (some new) h
          (λ e guests v answered same. ground arith) (λ e. i.current t f e);
    pending_le = i.pending_le;
    promised_le = i.promised_le;
    cached = i.cached;
  }

  reply-Inv :
      (task : ℕ) (f : Fetch) (guests : Map ℕ ResolvedGuest)
      → w.fetches task ≡ some f
      → Inv (record w {
        fetches =
            at_task w.fetches task
              (some (record f { answer = some (guests, w.version f.cluster) }));
      })
  reply-Inv task f guests stood = record {
    generation = i.generation;
    bumped_le = i.bumped_le;
    began_le = λ t g h.
        at_task-some (λ f. f.began ≤ w.bumps) w.fetches task t _ h
          (λ e. ground (arith, i.began_le task f stood)) (λ e. i.began_le t g e);
    read_before = λ t g h.
        at_task-some (λ f. f.generation_before ≡ f.began % 2 ^ 64) w.fetches task t _ h
          (λ e. ground (arith, i.read_before task f stood)) (λ e. i.read_before t g e);
    current = λ t g h.
        at_task-some (IsCurrent w) w.fetches task t _ h
          (λ e gs v answered same. ground (arith, i.bumped_le f.cluster)) (λ e. i.current t g e);
    pending_le = i.pending_le;
    promised_le = i.promised_le;
    cached = i.cached;
  }

  begin_invalidation-Inv :
      (task : ℕ) (scope : Scope)
      → w.bumps + 1 < 2 ^ 64
      → Inv (record w {
        index = bump w.index;
        bumps = w.bumps + 1;
        bumped = w.version;
        invalidations =
            at_task w.invalidations task (some (record { scope = scope; version = w.version }));
      })
  unfolding bump
  begin_invalidation-Inv task scope room = record {
    generation = ground (arith, i.generation);
    bumped_le = λ c. omega arith;
    began_le = λ t f h. omega (arith, i.began_le t f h);
    read_before = i.read_before;
    current = λ t f h guests v answered same. absurd (omega (arith, i.began_le t f h, same));
    pending_le = λ t inv h.
        at_task-some (λ inv. (c : Text) → inv.version c ≤ w.version c) w.invalidations task t _ h
          (λ e c. ground arith) (λ e c. omega (arith, i.pending_le t inv e c, i.bumped_le c));
    promised_le = λ c. omega (arith, i.promised_le c, i.bumped_le c);
    cached = i.cached;
  }

  promise-le :
      (inv : Invalidation) (c : Text)
      → inv.version c ≤ w.bumped c
      → promise inv w.promised c ≤ w.bumped c
  unfolding promise
  promise-le inv c h = ground (arith, i.promised_le c)

  end-cached :
      (inv : Invalidation) (c : Text) (s : Snapshot)
      → lookup c (clear_scope inv.scope w.index).snapshots ≡ some s
      → promise inv w.promised c ≤ w.shown c
  unfolding promise
  end-cached inv c s h =
      let (out, stood) = clear_scope-kept inv.scope w.index c s h in
      ground (arith, i.cached c s stood, out)

  end_invalidation-Inv :
      (task : ℕ) (inv : Invalidation)
      → w.invalidations task ≡ some inv
      → Inv (record w {
        index = clear_scope inv.scope w.index;
        promised = promise inv w.promised;
        invalidations = at_task w.invalidations task none;
      })
  end_invalidation-Inv task inv stood = record {
    generation = rw clear_scope-generation i.generation;
    bumped_le = i.bumped_le;
    began_le = i.began_le;
    read_before = i.read_before;
    current = i.current;
    pending_le = λ t v h. i.pending_le t v (at_task-cleared w.invalidations task t h);
    promised_le = λ c. promise-le inv c (i.pending_le task inv stood c);
    cached = end-cached inv;
  }

  same_generation :
      (t : ℕ) (f : Fetch)
      → w.bumps < 2 ^ 64
      → w.fetches t ≡ some f
      → w.index.generation ≡ f.generation_before
      → f.began ≡ w.bumps
  same_generation t f room stood same =
      omega (arith, i.generation, i.read_before t f stood, i.began_le t f stood)

  keep-cached :
      (t : ℕ) (f : Fetch) (guests : Map ℕ ResolvedGuest) (v : ℕ)
      → w.bumps < 2 ^ 64
      → w.fetches t ≡ some f
      → f.answer ≡ some (guests, v)
      → (c : Text) (s : Snapshot)
      → lookup c (publish w.index f.generation_before f.cluster w.now guests).snapshots ≡ some s
      → w.promised c ≤ show_published w.index f.generation_before f.cluster v w.shown c
  keep-cached t f guests v room stood answered c s h =
      elim (publish-kept w.index f.generation_before w.now f.cluster c guests v w.shown s h) [
        | inl (same, here, shows) ↦
            rw (shows, ← here)
              (omega (
                arith,
                i.promised_le f.cluster,
                i.current t f stood guests v answered (same_generation t f room stood same),
              ))
        | inr (old, shows) ↦ rw shows (i.cached c s old)
      ]

  keep-Inv :
      (task : ℕ) (f : Fetch) (guests : Map ℕ ResolvedGuest) (v : ℕ)
      → w.bumps < 2 ^ 64
      → w.fetches task ≡ some f
      → f.answer ≡ some (guests, v)
      → Inv (record w {
        index = publish w.index f.generation_before f.cluster w.now guests;
        shown = show_published w.index f.generation_before f.cluster v w.shown;
        fetches = at_task w.fetches task none;
      })
  keep-Inv task f guests v room stood answered = record {
    generation = rw publish-generation i.generation;
    bumped_le = i.bumped_le;
    began_le = λ t g h. i.began_le t g (at_task-cleared w.fetches task t h);
    read_before = λ t g h. i.read_before t g (at_task-cleared w.fetches task t h);
    current = λ t g h. i.current t g (at_task-cleared w.fetches task t h);
    pending_le = i.pending_le;
    promised_le = i.promised_le;
    cached = keep-cached task f guests v room stood answered;
  }

Step-Inv : {w v : World} → Step w v → v.bumps < 2 ^ 64 → Inv w → Inv v
Step-Inv (change cluster) room i = change-Inv cluster i
Step-Inv (wait t) room i = record {
  generation = i.generation;
  bumped_le = i.bumped_le;
  began_le = i.began_le;
  read_before = i.read_before;
  current = i.current;
  pending_le = i.pending_le;
  promised_le = i.promised_le;
  cached = i.cached;
}
Step-Inv (begin task cluster) room i = begin-Inv i task _ refl refl refl
Step-Inv (reply task f guests stood) room i = reply-Inv i task f guests stood
Step-Inv (keep task f guests v stood answered) room i =
    keep-Inv i task f guests v room stood answered
Step-Inv (begin_invalidation task scope) room i = begin_invalidation-Inv i task scope room
Step-Inv (end_invalidation task inv stood) room i = end_invalidation-Inv i task inv stood

Step-bumps : {w v : World} → Step w v → w.bumps ≤ v.bumps
Step-bumps (begin_invalidation task scope) = omega arith
Step-bumps _ = omega arith

pub Reach-Inv : {w v : World} → Inv w → Reach w v → v.bumps < 2 ^ 64 → Inv v
Reach-Inv i start room = i
Reach-Inv i (next r st) room = Step-Inv st room (Reach-Inv i r (omega (arith, Step-bumps st)))
