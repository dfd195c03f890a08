-- ===== src/HaRule/Touched.antt =====
-- crates/rust-proxmoxmcp/src/server/ha_change_set.rs, `guests_touched`: the guests that a change of an
-- HA rule moves.
use rustproxmoxmcp.Prelude.{
  ℕ, ◌≡◌, not, Option, none, some, List, [], ◌∷◌, ◌++◌, map, keep, ltb, eqb, is_empty, Result, ok,
  err, ◌>>=◌, ◌>>◌, ok_or, map_err, if◌then◌else◌,
}
use rustproxmoxmcp.Text.{Text, codes, split, split_once, trim}
use rustproxmoxmcp.Text.Number.{parse_u32}
use rustproxmoxmcp.Json.{Json, null, string, array, get, as_str, items}
use rustproxmoxmcp.HaRule.{
  HaRuleAction, HaRefusal, validate_service_id, bad_service, out_of_range, unreadable_resources,
}
use rustproxmoxmcp.HaRule.Built.{IsGuestId}

-- The entries of a list of ids, trimmed.
unfoldable pub array_ids : List Json → Result (List Text) HaRefusal
array_ids [] = ok []
array_ids (j ∷ js) =
    let rest = array_ids js in
    elim (as_str j) [
      | none ↦ err unreadable_resources
      | some entry ↦ rest >>= λ ids. ok (trim entry ∷ ids)
    ]

unfoldable pub field_ids : Option Json → Result (List Text) HaRefusal
unfolding array_ids
field_ids none = ok []
field_ids (some null) = ok []
field_ids (some (string list)) =
    ok (keep (λ entry. not (is_empty entry)) (map trim (split b',' list)))
field_ids (some (array entries)) = array_ids (items entries)
field_ids (some other) = err unreadable_resources

-- `rule.get("resources").or_else(|| rule.get("services"))`
abbrev pub first_given : Option Json → Option Json → Option Json
first_given none second = second
first_given (some first) second = some first

unfoldable pub existing_ids : Option Json → Result (List Text) HaRefusal
unfolding field_ids
existing_ids none = ok []
existing_ids (some rule) =
    field_ids (first_given (get rule (codes "resources")) (get rule (codes "services")))

unfoldable pub vmid_of_service : Text → Result ℕ HaRefusal
vmid_of_service id = do
  map_err bad_service (validate_service_id id)
  (kind, number) ← ok_or (split_once b':' id) (out_of_range id)
  ok_or (parse_u32 number) (out_of_range id)

-- `BTreeSet::insert`: the numbers in their order, each once
unfoldable pub insert_vmid : ℕ → List ℕ → List ℕ
insert_vmid n [] = n ∷ []
insert_vmid n (m ∷ ms) =
    let rest = insert_vmid n ms in
    if ltb n m then n ∷ m ∷ ms else if eqb n m then m ∷ ms else m ∷ rest

unfoldable pub vmids_of : List Text → Result (List ℕ) HaRefusal
unfolding vmid_of_service insert_vmid
vmids_of [] = ok []
vmids_of (id ∷ ids) =
    let rest = vmids_of ids in
    do vmid ← vmid_of_service id; vmids ← rest; ok (insert_vmid vmid vmids)

abbrev pub or_none : Option (List Text) → List Text
or_none none = []
or_none (some ids) = ids

unfoldable pub guests_touched : HaRuleAction → Option Json → Result (List ℕ) HaRefusal
unfolding existing_ids vmids_of
guests_touched action existing = do
  listed ← existing_ids existing
  vmids_of (or_none action.resources ++ listed)

-- The id is that of a guest, and the number in it fits 32 bits.
abbrev pub Names : Text → ℕ → Type 0
Names id vmid = (digits : Text) × IsGuestId id digits × (parse_u32 digits ≡ some vmid)
