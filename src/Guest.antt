-- ===== src/Guest.antt =====
-- crates/rust-proxmoxmcp-core/src/resolve.rs: a guest as the cluster reports it, and the reading of
-- `/cluster/resources`.
pub mod Tags
pub mod Listing
use mathlib.Core.Option
use rustproxmoxmcp.Prelude.{
  ℕ, ◌≤◌, Bool, true, false, not, Option, none, some, List, [], ◌∷◌, map, keep, is_empty, leb,
  if◌then◌else◌, Result, ok, err,
}
use rustproxmoxmcp.Text.{Text, codes, ◌==◌, split, trim}
use rustproxmoxmcp.Text.Number.{u32_max}
use rustproxmoxmcp.Json.{Json, get, as_str, as_u64, as_array}
use rustproxmoxmcp.Map.{Map, insert, number_key}
use rustproxmoxmcp.Error.{ProxmoxError, malformed}
use rustproxmoxmcp.Selector.{GuestType, qemu, lxc, GuestFacts}

pub record ResolvedGuest : Type 0 where
  pub cluster : Text
  pub vmid : ℕ
  pub name : Text
  pub type : GuestType
  pub node : Text
  pub status : Text
  pub tags : List Text
  pub pool : Option Text

-- `ResolvedGuest::facts`
unfoldable pub facts : ResolvedGuest → GuestFacts
facts guest = record {
  vmid = guest.vmid;
  type = guest.type;
  node = guest.node;
  pool = guest.pool;
  tags = guest.tags;
}

abbrev or_empty : Option Text → Text
or_empty none = []
or_empty (some s) = s

-- `parse_tags`
unfoldable pub parse_tags : Option Text → List Text
parse_tags raw = keep (λ tag. not (is_empty tag)) (map trim (split b';' (or_empty raw)))

infixl 5 ◌>>=◌
abbrev ◌>>=◌ {ℓ κ} : {A : Type ℓ} {B : Type κ} → Option A → (A → Option B) → Option B
none >>= f = none
some a >>= f = f a

-- `match kind { "qemu" => …, "lxc" => …, _ => … }`
guest_type : Text → Option GuestType
guest_type kind =
    if kind == codes "qemu" then some qemu else if kind == codes "lxc" then some lxc else none

-- `u32::try_from(vmid).ok()`
narrow : ℕ → Option ℕ
narrow n = if leb n u32_max then some n else none

non_empty : Option Text → Option Text
non_empty none = none
non_empty (some []) = none
non_empty (some (c ∷ s)) = some (c ∷ s)

abbrev text_or : Option Text → Text → Text
text_or none other = other
text_or (some s) other = s

pub record ResourceGuestFacts : Type 0 where
  pub vmid : ℕ
  pub type : GuestType
  pub node : Text
  pub pool : Option Text
  pub tags : List Text

-- `ResourceGuestFacts::facts`
unfoldable pub resource_facts : ResourceGuestFacts → GuestFacts
resource_facts guest = record {
  vmid = guest.vmid;
  type = guest.type;
  node = guest.node;
  pool = guest.pool;
  tags = guest.tags;
}

unfoldable pub parse_resource_guest : Json → Option ResourceGuestFacts
unfolding guest_type narrow non_empty
parse_resource_guest entry = do
  kind ← get entry (codes "type") >>= as_str
  type ← guest_type kind
  wide ← get entry (codes "vmid") >>= as_u64
  vmid ← narrow wide
  node ← get entry (codes "node") >>= as_str
  some (record {
    vmid = vmid;
    type = type;
    node = node;
    tags = parse_tags (get entry (codes "tags") >>= as_str);
    pool = non_empty (get entry (codes "pool") >>= as_str);
  })

-- One round of the loop of `fetch_guests`: `none` is `continue`.
unfoldable pub fetched_guest : Text → Json → Option ResolvedGuest
unfolding guest_type narrow non_empty
fetched_guest cluster entry = do
  kind ← get entry (codes "type") >>= as_str
  type ← guest_type kind
  wide ← get entry (codes "vmid") >>= as_u64
  vmid ← narrow wide
  node ← get entry (codes "node") >>= as_str
  some (record {
    cluster = cluster;
    vmid = vmid;
    name = text_or (get entry (codes "name") >>= as_str) [];
    type = type;
    node = node;
    status = text_or (get entry (codes "status") >>= as_str) (codes "unknown");
    tags = parse_tags (get entry (codes "tags") >>= as_str);
    pool = non_empty (get entry (codes "pool") >>= as_str);
  })

insert_guest : Option ResolvedGuest → Map ℕ ResolvedGuest → Map ℕ ResolvedGuest
insert_guest none guests = guests
insert_guest (some guest) guests = insert guest.vmid guest guests

collect_guests : Text → List Json → Map ℕ ResolvedGuest → Map ℕ ResolvedGuest
collect_guests cluster [] guests = guests
collect_guests cluster (entry ∷ entries) guests =
    collect_guests cluster entries (insert_guest (fetched_guest cluster entry) guests)

listed_guests : Text → Option (List Json) → Result (Map ℕ ResolvedGuest) ProxmoxError
listed_guests cluster none = err (malformed (codes "cluster/resources is not an array"))
listed_guests cluster (some entries) = ok (collect_guests cluster entries [])

-- `fetch_guests`, behind the reply of the client
unfoldable pub fetch_guests :
    Text → Result Json ProxmoxError → Result (Map ℕ ResolvedGuest) ProxmoxError
unfolding insert_guest collect_guests listed_guests
fetch_guests cluster (err e) = err e
fetch_guests cluster (ok value) = listed_guests cluster (as_array value)
