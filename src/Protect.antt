-- ===== src/Protect.antt =====
-- crates/rust-proxmoxmcp-core/src/protect.rs: whether a guest is protected, and what overrides it.
pub mod Union
pub mod Allowed
use rustproxmoxmcp.Prelude.{
  ℕ, Bool, true, false, not, Option, none, some, List, [], ◌∷◌, ◌++◌, map, any, eqb, keep,
  if◌then◌else◌,
}
use rustproxmoxmcp.Text.{Text, codes, join, contains}
use rustproxmoxmcp.Inventory.{Cluster}
use rustproxmoxmcp.Guest.{ResolvedGuest}
use rustproxmoxmcp.Waiver.{WaiverFile, WaiverEntry, matching}

pub data ProtectionReason : Type 0 where
  live_tag : Text → ProtectionReason
  inventory_pin resolution_failed unknown_guest : ProtectionReason

pub data Protection : Type 0 where
  unprotected : Protection
  protected : List ProtectionReason → Protection

pub data Override : Type 0 where
  no_override : Override
  waiver : Text → Option Text → ℕ → Override
  lab_mode : Override

unfoldable pub is_protected : Protection → Bool
is_protected unprotected = false
is_protected (protected reasons) = true

reason_text : ProtectionReason → Text
reason_text (live_tag tag) = codes "tag:" ++ tag
reason_text inventory_pin = codes "inventory-pin"
reason_text resolution_failed = codes "resolution-failed"
reason_text unknown_guest = codes "unknown-guest"

-- `Protection::summary`
unfoldable pub summary : Protection → Text
unfolding reason_text
summary unprotected = codes "unprotected"
summary (protected reasons) = join (codes ",") (map reason_text reasons)

-- `cluster.protected_vmids.contains(&vmid)`
unfoldable pub pinned : Cluster → ℕ → Bool
pinned cluster vmid = any (λ p. eqb p vmid) cluster.protected_vmids

-- The reasons that the loop over the tags pushes.
tag_reasons : Cluster → List Text → List ProtectionReason
tag_reasons cluster [] = []
tag_reasons cluster (tag ∷ tags) =
    let rest = tag_reasons cluster tags in
    if contains cluster.protected_tags tag then live_tag tag ∷ rest else rest

guest_reasons : Cluster → Option ResolvedGuest → Bool → List ProtectionReason
guest_reasons cluster none failed = if failed then [] else unknown_guest ∷ []
guest_reasons cluster (some guest) failed =
    tag_reasons cluster guest.tags ++ (if pinned cluster guest.vmid then inventory_pin ∷ [] else [])

verdict : List ProtectionReason → Protection
verdict [] = unprotected
verdict (r ∷ rs) = protected (r ∷ rs)

unfoldable pub protection_of : Cluster → Option ResolvedGuest → Bool → Protection
unfolding tag_reasons guest_reasons verdict
protection_of cluster guest failed =
    verdict ((if failed then resolution_failed ∷ [] else []) ++ guest_reasons cluster guest failed)

pub record DestructiveAttempt : Type 0 where
  pub op : Text
  pub principal : Option Text

override_by : Option WaiverEntry → Bool → Override
override_by (some entry) lab = waiver entry.reason entry.ticket entry.until_unix
override_by none lab = if lab then lab_mode else no_override

unfoldable pub destructive_allowed :
    Protection → WaiverFile → Text → ℕ → ℕ → Bool → DestructiveAttempt → Override
unfolding is_protected override_by
destructive_allowed protection waivers cluster vmid now lab attempt =
    if not (is_protected protection)
    then no_override
    else override_by (matching waivers cluster vmid now attempt.op attempt.principal) lab

unfoldable pub creation_allowed : Cluster → ℕ → Bool
creation_allowed cluster vmid = not (pinned cluster vmid)
