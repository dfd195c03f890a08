-- ===== src/Examples/Guests.antt =====
-- Runs of the theorems on tools, the listing of guests, the index and authorization.
use mathlib.Core.Option
use rustproxmoxmcp.Prelude.{
  ℕ, ◌≡◌, ◌↔◌, refl, false, none, some, [], ◌∷◌, arith, Has, here, there, ok, err,
}
use rustproxmoxmcp.Text.{codes, ◌==◌, split, trim, trim_start, trim_end, is_whitespace, split_once}
use rustproxmoxmcp.Json.{Json, as_array, items, get, as_str, as_u64}
use rustproxmoxmcp.Map.{lookup, insert, remove, number_key, text_key}
use rustproxmoxmcp.Catalog.{read_tools}
use rustproxmoxmcp.Catalog.Entries.{ReadTool, cluster_reads}
use rustproxmoxmcp.Tier.{destructive}
use rustproxmoxmcp.Guest.{
  ResolvedGuest, facts, parse_tags, parse_resource_guest, resource_facts, fetched_guest,
  fetch_guests,
}
use rustproxmoxmcp.Guest.Listing.{
  IsListed, IsHeld, parse_resource_guest-fetched_guest, fetch_guests_sound,
}
use rustproxmoxmcp.Grant.{ProxmoxGrant, allows_guest}
use rustproxmoxmcp.Selector.{parse, parse_vmid_term, matches}
use rustproxmoxmcp.Text.Number.{parse_u32, digits_value, decimal}
use rustproxmoxmcp.Protect.{protection_of}
use rustproxmoxmcp.Error.{http}
use rustproxmoxmcp.Resolve.{
  publish, new, lookup_fresh, resolve, authorize, intent_destructive, intent_read,
}
use rustproxmoxmcp.Resolve.Cache.{IsIndexed, started, resolved, resolve-IsIndexed, resolve-owned}
use rustproxmoxmcp.Resolve.Gate.{IsAuthorized, authorize_iff, authorize_hides_absence}
use rustproxmoxmcp.Examples.{lab, web, web_entry, listing, reply, band}

parse_resource_guest-fetched_guest_example :
    Option.map resource_facts (parse_resource_guest web_entry)
    ≡ Option.map facts (fetched_guest (codes "lab") web_entry)
parse_resource_guest-fetched_guest_example =
    parse_resource_guest-fetched_guest (codes "lab") web_entry

fetch_guests_sound_example :
    ((n : ℕ) (guest : ResolvedGuest)
      → lookup n ((650, web) ∷ []) ≡ some guest
      → IsListed (codes "lab") (web_entry ∷ []) n guest)
    × ((entry : Json) (guest : ResolvedGuest)
        → Has entry (web_entry ∷ [])
        → fetched_guest (codes "lab") entry ≡ some guest
        → IsHeld guest.vmid ((650, web) ∷ []))
unfolding as_array items fetch_guests fetched_guest get as_str as_u64 parse_tags split trim
    trim_start trim_end is_whitespace ◌==◌ insert remove
fetch_guests_sound_example =
    fetch_guests_sound (codes "lab") listing (web_entry ∷ []) ((650, web) ∷ []) refl refl

empty_index : IsIndexed (new 60)
unfolding lookup
empty_index = record { owned = λ cluster snapshot h. absurd (ground arith) }

resolve-IsIndexed_example : IsIndexed (resolve (new 60) 5 (codes "lab") 650 reply).1
resolve-IsIndexed_example = resolve-IsIndexed (new 60) 5 (codes "lab") 650 reply empty_index

-- The cluster was asked at 5, and cannot be reached at 10: the guest comes from the cache.
resolve-owned_example : (web.vmid ≡ 650) × (web.cluster ≡ codes "lab")
unfolding resolve lookup_fresh fetch_guests fetched_guest as_array items get as_str as_u64
    parse_tags split trim trim_start trim_end is_whitespace ◌==◌ insert remove lookup publish
resolve-owned_example =
    resolve-owned (resolve (new 60) 5 (codes "lab") 650 reply).1 10 (codes "lab") 650
      (err (http (codes "timeout"))) web (resolved 5 (codes "lab") 650 reply (started 60)) refl

authorize_iff_example :
    ((authorize lab (new 60) 5 (codes "lab") 650 band (intent_destructive false) reply).0
      ≡ ok (record {
        guest = web;
        protection = protection_of lab (some web) false;
        tier = destructive;
      }))
    ↔ ((guest : ResolvedGuest) × ((resolve (new 60) 5 (codes "lab") 650 reply).0 ≡ ok guest)
        × IsAuthorized lab band (intent_destructive false) guest (record {
          guest = web;
          protection = protection_of lab (some web) false;
          tier = destructive;
        }))
authorize_iff_example =
    authorize_iff lab (codes "lab") 650 band (intent_destructive false) (new 60) 5 reply
      (record { guest = web; protection = protection_of lab (some web) false; tier = destructive })

-- A token for another guest than the one that the cluster lists.
abbrev elsewhere : ProxmoxGrant
elsewhere = record band { guests = codes "vmid:700" ∷ [] }

authorize_hides_absence_example :
    (authorize lab (new 60) 5 (codes "lab") 700 elsewhere intent_read reply).0
    ≡ (authorize lab (new 60) 5 (codes "lab") 650 elsewhere intent_read reply).0
unfolding resolve lookup_fresh fetch_guests fetched_guest as_array items get as_str as_u64
    parse_tags split trim trim_start trim_end is_whitespace ◌==◌ insert remove lookup allows_guest
    parse parse_vmid_term parse_u32 digits_value split_once matches facts decimal
authorize_hides_absence_example =
    authorize_hides_absence lab lab (new 60) (new 60) 5 5 (codes "lab") 700 650 elsewhere
      intent_read reply reply (codes "guest 700 in cluster lab") web refl refl refl

-- The entry of the catalog for the nodes.
abbrev nodes_tool : ReadTool
nodes_tool = record {
  name = codes "get_nodes";
  path = codes "/api2/json/nodes";
  needs_guest = false;
  type_filter = none;
  query = [];
  guest_listing = false;
}

nodes_listed : Has nodes_tool read_tools
unfolding read_tools cluster_reads
nodes_listed = there here
