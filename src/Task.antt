-- ===== src/Task.antt =====
-- crates/rust-proxmoxmcp-core/src/task.rs, and the readers of a task handle in
-- crates/rust-proxmoxmcp-core/src/guests.rs.
pub mod Handle
use rustproxmoxmcp.Prelude.{
  ℕ, Bool, true, false, not, ◌&&◌, ◌||◌, Option, none, some, List, [], ◌∷◌, ◌++◌, length, get_elem?,
  any, is_empty, ltb, eqb, if◌then◌else◌, Result, ok, err, ◌>>=◌, ◌>>◌, map_err, refuse_if,
}
use rustproxmoxmcp.Text.{Text, codes, ◌==◌, contains, starts_with, has_substring, split, is_control}
use rustproxmoxmcp.Text.Number.{parse_u32}
use rustproxmoxmcp.Json.{Json}
use rustproxmoxmcp.Error.{ProxmoxError, malformed}

pub record Upid : Type 0 where
  pub node : Text
  pub kind : Text
  pub id : Text

pub data TaskError : Type 0 where
  malformed_upid : Text → TaskError

-- `parts[n]`; empty out of range, where no caller gets after the test of the length
unfoldable pub part : List Text → ℕ → Text
part parts n = elim (get_elem? parts n) [ none ↦ [] | some text ↦ text ]

-- `Upid::parse`
unfoldable pub parse : Text → Result Upid TaskError
parse upid =
    let parts = split b':' upid in
    if ltb (length parts) 9 || not (part parts 0 == codes "UPID")
    then err (malformed_upid upid)
    else if is_empty (part parts 1) || is_empty (part parts 5) || is_empty (part parts 6)
    then err (malformed_upid upid)
    else ok (record { node = part parts 1; kind = part parts 5; id = part parts 6 })

pub data TaskOutcome : Type 0 where
  succeeded : TaskOutcome
  failed : Text → TaskOutcome

unfoldable pub classify_exit_status : Text → TaskOutcome
classify_exit_status status = if status == codes "OK" then succeeded else failed status

-- The workers that replace a guest in place.
unfoldable pub replacing_workers : List Text
replacing_workers =
    codes "qmrestore"
    ∷ codes "vzrestore"
    ∷ codes "qmdestroy"
    ∷ codes "vzdestroy"
    ∷ codes "qmrollback"
    ∷ codes "vzrollback"
    ∷ []

unfoldable pub stopping_task_leaves_partial_state : Text → Bool
stopping_task_leaves_partial_state upid = elim (get_elem? (split b':' upid) 5) [
  | none ↦ true
  | some worker_type ↦ if is_empty worker_type then true else contains replacing_workers worker_type
]

-- A node that cannot stand in a path.
unfoldable pub is_bad_node : Text → Bool
is_bad_node node = is_empty node || any (λ c. is_control c || eqb c b'/') node

unfoldable pub upid_node : Text → Option Text
upid_node upid = elim (get_elem? (split b':' upid) 0) [
  | none ↦ none
  | some prefix ↦
      if not (prefix == codes "UPID") then none else elim (get_elem? (split b':' upid) 1) [
        | none ↦ none
        | some node ↦ if is_bad_node node then none else some node
      ]
]

-- `task_guest`, once the kind is read: QEMU workers are `qm*` and container workers `vz*`.
unfoldable pub guest_of_worker : Text → Option Text → Option ℕ
guest_of_worker kind id =
    if not (starts_with kind (codes "qm") || starts_with kind (codes "vz"))
    then none
    else elim id [ none ↦ none | some digits ↦ parse_u32 digits ]

unfoldable pub task_guest : Text → Option ℕ
task_guest upid = elim (get_elem? (split b':' upid) 5) [
  | none ↦ none
  | some kind ↦ guest_of_worker kind (get_elem? (split b':' upid) 6)
]

-- `mecmcp_openapi::expand_path` on the path of the tasks of a node, the percent-encoding of the
-- client, and its DELETE request
module _ (expand_tasks : Text → Result Text Text) (percent_encode : Text → Text)
    (delete_json : Text → Result Json ProxmoxError) where
  unfoldable pub stop_task : Text → Text → Result Json ProxmoxError
  stop_task node upid = do
    refuse_if (is_empty upid) (malformed (codes "upid is empty"))
    refuse_if (not (starts_with upid (codes "UPID:"))) (
        malformed
          (codes "'" ++ (upid ++ codes "' is not a task handle: a UPID begins with 'UPID:'")))
    refuse_if (has_substring upid (codes ".."))
        (malformed (codes "upid contains '..', which cannot name a task"))
    refuse_if (any is_control upid) (malformed (codes "upid contains a control character"))
    prefix ← map_err (λ error. malformed error) (expand_tasks node)
    delete_json (prefix ++ (codes "/" ++ percent_encode upid))
