-- ===== src/Task/Handle.antt =====
-- The readers of a task handle agree on the handles that parse
-- (crates/rust-proxmoxmcp-core/src/task.rs and guests.rs).
use rustproxmoxmcp.Prelude.{
  ℕ, zero, suc, ◌<◌, ◌≤◌, ◌≡◌, refl, true, false, none, some, List, [], ◌∷◌, arith, length,
  get_elem?, ltb, is_empty, if◌then◌else◌, Result, ok, any,
}
use rustproxmoxmcp.Text.{Text, codes, ◌==◌, contains, split, starts_with, has_substring, is_control}
use rustproxmoxmcp.Text.Equality.{eq_of_test, eq_refl}
use rustproxmoxmcp.Json.{Json}
use rustproxmoxmcp.Error.{ProxmoxError}
use rustproxmoxmcp.Task.{
  Upid, part, parse, replacing_workers, stopping_task_leaves_partial_state, is_bad_node, upid_node,
  guest_of_worker, task_guest, stop_task,
}

get_elem?-part :
    (parts : List Text) (n : ℕ) → n < length parts → get_elem? parts n ≡ some (part parts n)
unfolding part
get_elem?-part [] n h = absurd (omega arith)
get_elem?-part (p ∷ ps) zero h = refl
get_elem?-part (p ∷ ps) (suc n) h = get_elem?-part ps n (omega arith)

-- What a handle that parses has.
leb-of-ltb : (m n : ℕ) → ltb m n ≡ false → n ≤ m
leb-of-ltb m n h = ground arith

record IsHandle (upid : Text) (u : Upid) : Type 0 where
  pub prefix : get_elem? (split b':' upid) 0 ≡ some (codes "UPID")
  pub node : get_elem? (split b':' upid) 1 ≡ some u.node
  pub kind : get_elem? (split b':' upid) 5 ≡ some u.kind
  pub id : get_elem? (split b':' upid) 6 ≡ some u.id
  pub node_given : is_empty u.node ≡ false
  pub kind_given : is_empty u.kind ≡ false

parse-IsHandle : (upid : Text) (u : Upid) → parse upid ≡ ok u → IsHandle upid u
unfolding parse
parse-IsHandle upid u h =
    let parts = split b':' upid in
    let short : ltb (length parts) 9 ≡ false = ground arith in
    let prefix : (part parts 0 == codes "UPID") ≡ true = ground (arith, short) in
    let node : is_empty (part parts 1) ≡ false = ground (arith, short, prefix) in
    let kind : is_empty (part parts 5) ≡ false = ground (arith, short, prefix, node) in
    let id : is_empty (part parts 6) ≡ false = ground (arith, short, prefix, node, kind) in
    let made : record { node = part parts 1; kind = part parts 5; id = part parts 6 } ≡ u =
      ground (arith, short, prefix, node, kind, id) in
    let long : 9 ≤ length parts = leb-of-ltb (length parts) 9 short in
    rw (← made) (record {
      prefix =
          rw (← (eq_of_test (part parts 0) (codes "UPID") prefix))
            (get_elem?-part parts 0 (omega (arith, long)));
      node = get_elem?-part parts 1 (omega (arith, long));
      kind = get_elem?-part parts 5 (omega (arith, long));
      id = get_elem?-part parts 6 (omega (arith, long));
      node_given = node;
      kind_given = kind;
    })

-- A handle that parses is read in the same way by the three functions that go without the parse:
-- stopping its task is taken to be unsafe exactly for the kinds of worker that replace a guest, its
-- guest is the id where the kind is one of a guest's workers and the id a number, and its node is the
-- parsed one, unless that holds a slash or a control character.
pub parse-readers :
    (upid : Text) (u : Upid)
    → parse upid ≡ ok u
    → (stopping_task_leaves_partial_state upid ≡ contains replacing_workers u.kind)
      × (task_guest upid ≡ guest_of_worker u.kind (some u.id))
      × (upid_node upid ≡ (if is_bad_node u.node then none else some u.node))
unfolding stopping_task_leaves_partial_state task_guest upid_node
parse-readers upid u h =
    let i = parse-IsHandle upid u h in
    (
      ground (arith, i.kind, i.kind_given),
      ground (arith, i.kind, i.id),
      ground (arith, i.prefix, i.node, eq_refl (codes "UPID")),
    )

-- A task is only ever stopped for a handle that begins with `UPID:` and holds neither two dots in a
-- row nor a control character: for any other, whatever the cluster would answer, the result is an
-- error.
pub stop_task_guarded :
    (expand_tasks : Text → Result Text Text) (percent_encode : Text → Text)
    (delete_json : Text → Result Json ProxmoxError) (node upid : Text) (reply : Json)
    → stop_task expand_tasks percent_encode delete_json node upid ≡ ok reply
    → (starts_with upid (codes "UPID:") ≡ true)
      × (has_substring upid (codes "..") ≡ false)
      × (any is_control upid ≡ false)
unfolding stop_task
stop_task_guarded expand_tasks percent_encode delete_json node upid reply h = ground arith
