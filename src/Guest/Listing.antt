-- ===== src/Guest/Listing.antt =====
-- The two readers of a `/cluster/resources` entry agree.
use rustproxmoxmcp.Prelude.{
  ℕ, ◌≡◌, Option, none, some, List, [], ◌∷◌, arith, Bool-cases, Option-cases, inl, inr, ◌⊎◌, eqb,
  Has, here, there, Result, ok, err,
}
use mathlib.Core.Option
use rustproxmoxmcp.Text.{Text}
use rustproxmoxmcp.Json.{Json, as_array}
use rustproxmoxmcp.Map.{Map, lookup, lookup-insert, number_key}
use rustproxmoxmcp.Error.{ProxmoxError, not_found}
use rustproxmoxmcp.Guest.{
  ResolvedGuest, facts, resource_facts, parse_resource_guest, fetched_guest, insert_guest,
  collect_guests, fetch_guests, listed_guests,
}

-- The filter of a listing and the index of guests read the same facts out of every entry, and drop
-- the same entries.
pub parse_resource_guest-fetched_guest :
    (cluster : Text) (entry : Json)
    → Option.map resource_facts (parse_resource_guest entry)
      ≡ Option.map facts (fetched_guest cluster entry)
unfolding parse_resource_guest fetched_guest facts resource_facts
parse_resource_guest-fetched_guest cluster entry = ground arith

insert_guest-inv :
    (n : ℕ) (found : Option ResolvedGuest) (guests : Map ℕ ResolvedGuest) (guest : ResolvedGuest)
    → lookup n (insert_guest found guests) ≡ some guest
    → ((found ≡ some guest) × (guest.vmid ≡ n)) ⊎ (lookup n guests ≡ some guest)
unfolding insert_guest
insert_guest-inv n none guests guest h = inr h
insert_guest-inv n (some g) guests guest h = ground (arith, lookup-insert g.vmid n g guests)

not_held : (n : ℕ) (guest : ResolvedGuest) → lookup n [] ≡ some guest → ⊥
unfolding lookup
not_held n guest h = cc

-- An entry of the list was read as the guest, which the map holds under its own number.
abbrev pub IsListed : Text → List Json → ℕ → ResolvedGuest → Type 0
IsListed cluster entries n guest =
    (entry : Json) × Has entry entries
    × (fetched_guest cluster entry ≡ some guest)
    × (guest.vmid ≡ n)

collect_guests-inv :
    (cluster : Text) (entries : List Json) (guests : Map ℕ ResolvedGuest) (n : ℕ)
    (guest : ResolvedGuest)
    → lookup n (collect_guests cluster entries guests) ≡ some guest
    → IsListed cluster entries n guest ⊎ (lookup n guests ≡ some guest)
unfolding collect_guests
collect_guests-inv cluster [] guests n guest h = inr h
collect_guests-inv cluster (entry ∷ entries) guests n guest h =
    elim (collect_guests-inv cluster entries (insert_guest (fetched_guest cluster entry) guests) n
      guest h) [
        | inl (e, m, f, v) ↦ inl (e, there m, f, v)
        | inr earlier ↦
            elim (insert_guest-inv n (fetched_guest cluster entry) guests guest earlier) [
              | inl (f, v) ↦ inl (entry, here, f, v)
              | inr before ↦ inr before
            ]
      ]

abbrev pub IsHeld : ℕ → Map ℕ ResolvedGuest → Type 0
IsHeld n guests = (guest : ResolvedGuest) × (lookup n guests ≡ some guest)

insert_guest-IsHeld :
    (n : ℕ) (found : Option ResolvedGuest) (guests : Map ℕ ResolvedGuest)
    → IsHeld n guests
    → IsHeld n (insert_guest found guests)
unfolding insert_guest
insert_guest-IsHeld n none guests h = h
insert_guest-IsHeld n (some g) guests (guest, h) = elim (Bool-cases (eqb g.vmid n)) [
  | inl e ↦ (g, ground (arith, lookup-insert g.vmid n g guests))
  | inr e ↦ (guest, ground (arith, lookup-insert g.vmid n g guests))
]

collect_guests-IsHeld :
    (cluster : Text) (entries : List Json) (guests : Map ℕ ResolvedGuest) (n : ℕ)
    → IsHeld n guests
    → IsHeld n (collect_guests cluster entries guests)
unfolding collect_guests
collect_guests-IsHeld cluster [] guests n h = h
collect_guests-IsHeld cluster (entry ∷ entries) guests n h =
    collect_guests-IsHeld cluster entries _ n
      (insert_guest-IsHeld n (fetched_guest cluster entry) guests h)

collect_guests_complete :
    (cluster : Text) {entry : Json} (guest : ResolvedGuest) {entries : List Json}
    (guests : Map ℕ ResolvedGuest)
    → Has entry entries
    → fetched_guest cluster entry ≡ some guest
    → IsHeld guest.vmid (collect_guests cluster entries guests)
unfolding collect_guests insert_guest
collect_guests_complete cluster guest guests (here {xs}) e =
    collect_guests-IsHeld cluster xs _ guest.vmid
      (rw e (guest, ground (arith, lookup-insert guest.vmid guest.vmid guest guests)))
collect_guests_complete cluster guest guests (there m) e =
    collect_guests_complete cluster guest _ m e

-- The index that is read from a reply holds under a number only a guest of that number, read from an
-- entry of the reply; and it holds a guest for each entry that is readable.
pub fetch_guests_sound :
    (cluster : Text) (value : Json) (entries : List Json) (guests : Map ℕ ResolvedGuest)
    → as_array value ≡ some entries
    → fetch_guests cluster (ok value) ≡ ok guests
    → ((n : ℕ) (guest : ResolvedGuest)
        → lookup n guests ≡ some guest
        → IsListed cluster entries n guest)
      × ((entry : Json) (guest : ResolvedGuest)
          → Has entry entries
          → fetched_guest cluster entry ≡ some guest
          → IsHeld guest.vmid guests)
unfolding fetch_guests
fetch_guests_sound cluster value entries guests a h =
    let same = collected guests (rw (a, listed_guests) at h) in (sound same, complete same)
  where
    collected :
        (guests : Map ℕ ResolvedGuest)
        → ◌≡◌ {A = Result (Map ℕ ResolvedGuest) ProxmoxError}
            (ok (collect_guests cluster entries []))
            (ok guests)
        → collect_guests cluster entries [] ≡ guests
    collected guests e = cc

    sound :
        collect_guests cluster entries [] ≡ guests
        → (n : ℕ) (guest : ResolvedGuest) → lookup n guests ≡ some guest
        → IsListed cluster entries n guest
    sound same n guest l = elim (collect_guests-inv cluster entries [] n guest (rw same l)) [
      | inl listed ↦ listed
      | inr nothing ↦ absurd (not_held n guest nothing)
    ]

    complete :
        collect_guests cluster entries [] ≡ guests
        → (entry : Json) (guest : ResolvedGuest) → Has entry entries
        → fetched_guest cluster entry ≡ some guest
        → IsHeld guest.vmid guests
    complete same entry guest m f = rw (← same) (collect_guests_complete cluster guest [] m f)

fetched_guest-cluster :
    (cluster : Text) (entry : Json) (guest : ResolvedGuest)
    → fetched_guest cluster entry ≡ some guest
    → guest.cluster ≡ cluster
unfolding fetched_guest
fetched_guest-cluster cluster entry guest h = ground arith

pub fetch_guests-owned :
    (cluster : Text) (reply : Result Json ProxmoxError) (guests : Map ℕ ResolvedGuest)
    → fetch_guests cluster reply ≡ ok guests
    → (n : ℕ) (guest : ResolvedGuest) → lookup n guests ≡ some guest
    → (guest.vmid ≡ n) × (guest.cluster ≡ cluster)
unfolding fetch_guests listed_guests
fetch_guests-owned cluster (err e) guests h n guest l = absurd (cc)
fetch_guests-owned cluster (ok value) guests h n guest l = elim (Option-cases (as_array value)) [
  | inl e ↦ absurd (cc (rw (e, listed_guests) at h))
  | inr (entries, e) ↦
      let (entry, m, f, v) = (fetch_guests_sound cluster value entries guests e h).0 n guest l in
      (v, fetched_guest-cluster cluster entry guest f)
]

pub fetch_guests-not_found :
    (cluster : Text) (reply : Result Json ProxmoxError) (what : Text)
    → fetch_guests cluster reply ≡ err (not_found what)
    → reply ≡ err (not_found what)
unfolding fetch_guests listed_guests
fetch_guests-not_found cluster (err e) what h = cc
fetch_guests-not_found cluster (ok value) what h = elim (Option-cases (as_array value)) [
  | inl e ↦ absurd (cc (rw (e, listed_guests) at h))
  | inr (entries, e) ↦ absurd (cc (rw (e, listed_guests) at h))
]
