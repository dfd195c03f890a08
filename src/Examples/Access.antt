-- ===== src/Examples/Access.antt =====
-- Runs of the theorems on grants, protection, waivers and authorization.
use rustproxmoxmcp.Prelude.{
  ◌≡◌, ◌↔◌, ◌⊎◌, ◌<◌, refl, inl, true, false, Option, none, some, [], ◌∷◌, ◌++◌, arith, here,
  Result, ok,
}
use rustproxmoxmcp.Text.{Text, codes, ◌==◌, split_once, is_whitespace, trim, trim_start, trim_end}
use rustproxmoxmcp.Text.Number.{parse_u32, digits_value, decimal}
use rustproxmoxmcp.Selector.{parse, parse_vmid_term, vmid_range}
use rustproxmoxmcp.Selector.Laws.{show, parse-show}
use rustproxmoxmcp.Grant.{
  read_only, allows_guest, allows_new_vmid, allows_subject, is_unrestricted_guest_scope, validate,
}
use rustproxmoxmcp.Grant.Scope.{
  IsAdmitted, allows_guest_iff, unrestricted-allows_guest, padded, padded_star_admits_nothing,
}
use rustproxmoxmcp.Grant.Creation.{allows_new_vmid-allows_guest, allows_subject-address}
use rustproxmoxmcp.Waiver.{
  WaiverEntry, WaiverEntryRaw, WaiverFileRaw, ℤ, negsuc, as_u64, load_entry, load,
}
use rustproxmoxmcp.Waiver.Match.{Covers}
use rustproxmoxmcp.Waiver.Load.{IsLoaded, load_entry_negative, load-IsLoaded}
use rustproxmoxmcp.Guest.{ResolvedGuest, facts}
use rustproxmoxmcp.Protect.{
  protection_of, unprotected, protected, inventory_pin, is_protected, destructive_allowed,
}
use rustproxmoxmcp.Protect.Union.{IsFree, unprotected_iff}
use rustproxmoxmcp.Protect.Allowed.{IsWaived, overrides, destructive_allowed_iff}
use rustproxmoxmcp.Examples.{lab, web, band, window, waivers, attempt}

parse-show_example : parse (show (vmid_range 600 699)) ≡ ok (vmid_range 600 699)
parse-show_example = parse-show (vmid_range 600 699) (omega arith, omega arith)

allows_guest_iff_example : (allows_guest band (facts web) ≡ true) ↔ IsAdmitted band (facts web)
allows_guest_iff_example = allows_guest_iff band (facts web)

unrestricted-allows_guest_example : allows_guest read_only (facts web) ≡ true
unfolding validate parse is_unrestricted_guest_scope trim trim_start trim_end is_whitespace ◌==◌
unrestricted-allows_guest_example = unrestricted-allows_guest read_only (facts web) refl refl

padded_star_admits_nothing_example :
    (is_unrestricted_guest_scope (padded 32) ≡ true)
    × (allows_guest (padded 32) (facts web) ≡ false)
unfolding is_whitespace
padded_star_admits_nothing_example = padded_star_admits_nothing 32 (facts web) refl

allows_new_vmid-allows_guest_example : allows_guest band (facts web) ≡ true
unfolding allows_new_vmid parse parse_vmid_term parse_u32 digits_value split_once ◌==◌ facts
allows_new_vmid-allows_guest_example = allows_new_vmid-allows_guest band (facts web) refl

allows_subject-address_example :
    allows_subject band (codes "lab" ++ b'/' ∷ decimal 650) ≡ allows_new_vmid band 650
allows_subject-address_example = allows_subject-address band (codes "lab") 650 refl (omega arith)

Covers-pinned : Covers window (codes "lab") 905 1000 (codes "destroy") (some (codes "alice"))
Covers-pinned = record {
  same_cluster = refl;
  same_guest = refl;
  unexpired = omega arith;
  named = here;
  bound = inl refl;
}

destructive_allowed_iff_example :
    ((is_protected (protected (inventory_pin ∷ [])) ≡ false)
      ⊎ (overrides (
            destructive_allowed
              (protected (inventory_pin ∷ []))
              waivers
              (codes "lab")
              905
              1000
              false
              attempt)
          ≡ true))
    ↔ ((is_protected (protected (inventory_pin ∷ [])) ≡ false)
        ⊎ (IsWaived (protected (inventory_pin ∷ [])) waivers (codes "lab") 905 1000 false attempt
            ⊎ (false ≡ true)))
destructive_allowed_iff_example =
    destructive_allowed_iff (protected (inventory_pin ∷ [])) waivers (codes "lab") 905 1000 false
      attempt

unprotected_iff_example : (protection_of lab (some web) false ≡ unprotected) ↔ (
    (false ≡ false)
    × ((g : ResolvedGuest) × (◌≡◌ {A = Option ResolvedGuest} (some web) (some g)) × IsFree lab g))
unprotected_iff_example = unprotected_iff lab (some web) false

-- A waiver file with one entry, and readers of its bytes and of its time stamp.
abbrev raw_entry : WaiverEntryRaw
raw_entry = record {
  cluster = codes "lab";
  vmid = 905;
  until = codes "1960-01-01T00:00:00Z";
  reason = codes "rebuild";
  ticket = none;
  ops = codes "destroy" ∷ [];
  principal = none;
}

abbrev before_epoch : Text → Result ℤ Text
before_epoch text = ok (negsuc 315619199)

abbrev loaded_entry : WaiverEntry
loaded_entry = record {
  cluster = codes "lab";
  vmid = 905;
  until_unix = as_u64 (negsuc 315619199);
  reason = codes "rebuild";
  ticket = none;
  ops = codes "destroy" ∷ [];
  principal = none;
}

load_entry_negative_example : 1700000000 < loaded_entry.until_unix
unfolding load_entry
load_entry_negative_example =
    load_entry_negative before_epoch raw_entry loaded_entry 315619199 1700000000 refl refl
      (omega arith) (omega arith)

abbrev bytes : Result Text Text
bytes = ok []

abbrev read_json : Text → Result WaiverFileRaw Text
read_json contents = ok (record { version = 1; waivers = raw_entry ∷ [] })

load-IsLoaded_example : IsLoaded before_epoch true bytes read_json loaded_entry
unfolding load load_entry
load-IsLoaded_example =
    load-IsLoaded before_epoch true bytes read_json (record { waivers = loaded_entry ∷ [] }) refl
      here
