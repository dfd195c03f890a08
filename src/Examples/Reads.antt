-- ===== src/Examples/Reads.antt =====
-- Runs of the theorems on task handles, pages and the cache under concurrent callers.
use mathlib.Core.List.{Perm}
use rustproxmoxmcp.Prelude.{
  ℕ, suc, ◌≡◌, ◌≤◌, refl, none, some, List, [], ◌∷◌, ◌++◌, arith, length, Result, ok, if◌then◌else◌,
}
use rustproxmoxmcp.Text.{Text, codes, ◌==◌, split, contains}
use rustproxmoxmcp.Json.{Json, null, end, field, unsigned, object}
use rustproxmoxmcp.Error.{ProxmoxError}
use rustproxmoxmcp.Map.{Map, lookup, insert, remove, number_key, text_key}
use rustproxmoxmcp.Guest.{ResolvedGuest}
use rustproxmoxmcp.Task.{
  Upid, parse, part, replacing_workers, stopping_task_leaves_partial_state, is_bad_node, upid_node,
  guest_of_worker, task_guest,
}
use rustproxmoxmcp.Task.Handle.{parse-readers}
use rustproxmoxmcp.Page.{sort_for_paging}
use rustproxmoxmcp.Page.Cover.{read_pages, read_pages-Perm}
use rustproxmoxmcp.Resolve.{publish, bump, clear_cluster, lookup_fresh}
use rustproxmoxmcp.Resolve.Race.{
  World, Fetch, only, Reach, start, next, begin, reply, keep, begin_invalidation, end_invalidation,
  change, initial, at_task, at_cluster, show_published, clear_scope,
}
use rustproxmoxmcp.Resolve.Race.Freshness.{lookup_fresh-not_stale}
use rustproxmoxmcp.Examples.{web}

abbrev handle : Text
handle = codes "UPID:pve2:0003:0A:66:qmstop:650:root@pam:"

abbrev parsed : Upid
parsed = record { node = codes "pve2"; kind = codes "qmstop"; id = codes "650" }

parse-readers_example :
    (stopping_task_leaves_partial_state handle ≡ contains replacing_workers parsed.kind)
    × (task_guest handle ≡ guest_of_worker parsed.kind (some parsed.id))
    × (upid_node handle ≡ (if is_bad_node parsed.node then none else some parsed.node))
unfolding parse part split ◌==◌
parse-readers_example = parse-readers handle parsed refl

abbrev tasks_path : Text → Result Text Text
tasks_path node = ok (codes "/api2/json/nodes/" ++ (node ++ codes "/tasks"))

abbrev encode : Text → Text
encode text = text

abbrev stopped : Text → Result Json ProxmoxError
stopped path = ok null

abbrev guest_of : ℕ → Json
guest_of n = object (field (codes "vmid") (unsigned n) end)

abbrev three_guests : List Json
three_guests = guest_of 905 ∷ guest_of 650 ∷ guest_of 651 ∷ []

read_pages-Perm_example :
    Perm three_guests (read_pages (suc (length three_guests)) (sort_for_paging three_guests) 0 2)
read_pages-Perm_example = read_pages-Perm three_guests 2 (omega arith)

-- A fetch that begins before a change and its invalidation, and one after them that is published.
abbrev guests : Map ℕ ResolvedGuest
guests = (650, web) ∷ []

abbrev first_version : Text → ℕ
first_version c = 0

abbrev asked : ℕ → ℕ → Fetch
asked generation began = record {
  cluster = codes "lab";
  generation_before = generation;
  began = began;
  answer = none;
}

abbrev answered : ℕ → ℕ → ℕ → Fetch
answered generation began version = record (asked generation began) {
  answer = some (guests, version);
}

abbrev reached : (w : World) × Reach (initial 60 first_version) w
unfolding initial at_task at_cluster bump clear_scope clear_cluster publish show_published insert
    remove ◌==◌
reached =
    let early = next (next start (begin 0 (codes "lab"))) (reply 0 (asked 0 0) guests refl) in
    let changed = next early (change (codes "lab")) in
    let dropped = next (next changed (begin_invalidation 7 (only (codes "lab")))) (
      end_invalidation 7
        (record { scope = only (codes "lab"); version = at_cluster first_version (codes "lab") 1 })
        refl) in
    let again = next (next dropped (begin 1 (codes "lab"))) (reply 1 (asked 1 1) guests refl) in
    (
      _,
      next (next again (keep 0 (answered 0 0 0) guests 0 refl refl))
          (keep 1 (answered 1 1 1) guests 1 refl refl),
    )

lookup_fresh-not_stale_example : reached.0.promised (codes "lab") ≤ reached.0.shown (codes "lab")
unfolding lookup_fresh lookup initial at_task at_cluster bump clear_scope clear_cluster publish
    show_published insert remove ◌==◌
lookup_fresh-not_stale_example =
    lookup_fresh-not_stale 60 first_version reached.0 (codes "lab") 650 web reached.1 (omega arith)
      refl
