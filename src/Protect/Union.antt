-- ===== src/Protect/Union.antt =====
-- Protection is a union, and fails closed.
use rustproxmoxmcp.Prelude.{
  ◌≡◌, ◌↔◌, refl, inl, inr, Bool, true, false, Option, none, some, List, [], ◌∷◌, ◌++◌, arith, Has,
  here, there, Has-cons, Has-append, Has-append_left, Has-append_right, Bool-cases, if◌then◌else◌,
}
use rustproxmoxmcp.Text.{Text, contains}
use rustproxmoxmcp.Text.Equality.{contains_iff}
use rustproxmoxmcp.Inventory.{Cluster}
use rustproxmoxmcp.Guest.{ResolvedGuest}
use rustproxmoxmcp.Protect.{
  ProtectionReason, live_tag, inventory_pin, resolution_failed, unknown_guest, Protection,
  unprotected, protected, pinned, tag_reasons, guest_reasons, verdict, protection_of,
}

-- The reasons of a verdict; an unprotected guest has none.
abbrev pub reasons : Protection → List ProtectionReason
reasons unprotected = []
reasons (protected rs) = rs

reasons-verdict : (rs : List ProtectionReason) → reasons (verdict rs) ≡ rs
unfolding verdict
reasons-verdict [] = refl
reasons-verdict (r ∷ rs) = refl

tag_reasons-Has :
    (cluster : Cluster) (tag : Text) (tags : List Text)
    → Has tag tags
    → contains cluster.protected_tags tag ≡ true
    → Has (live_tag tag) (tag_reasons cluster tags)
unfolding tag_reasons
tag_reasons-Has cluster tag tags here c = rw c here
tag_reasons-Has cluster tag tags (there {y} m) c =
    elim (Bool-cases (contains cluster.protected_tags y)) [
      | inl e ↦ rw e (there (tag_reasons-Has cluster tag _ m c))
      | inr e ↦ rw e (tag_reasons-Has cluster tag _ m c)
    ]

-- What each reason says of the cluster's policy and of the guest.
abbrev pub Holds : Cluster → Option ResolvedGuest → Bool → ProtectionReason → Type 0
Holds cluster guest failed (live_tag tag) =
    (g : ResolvedGuest) × (guest ≡ some g) × Has tag g.tags × Has tag cluster.protected_tags
Holds cluster guest failed inventory_pin =
    (g : ResolvedGuest) × (guest ≡ some g) × (pinned cluster g.vmid ≡ true)
Holds cluster guest failed resolution_failed = failed ≡ true
Holds cluster guest failed unknown_guest = (guest ≡ none) × (failed ≡ false)

Has-tag_reasons :
    (cluster : Cluster) (tags : List Text) {r : ProtectionReason}
    → Has r (tag_reasons cluster tags)
    → (tag : Text) × (r ≡ live_tag tag) × Has tag tags × Has tag cluster.protected_tags
unfolding tag_reasons
Has-tag_reasons cluster [] m = elim m [ ]
Has-tag_reasons cluster (t ∷ tags) m = elim (Bool-cases (contains cluster.protected_tags t)) [
  | inl e ↦ elim (Has-cons (rw e at m)) [
    | inl same ↦ (t, same, here, (contains_iff _ _).0 e)
    | inr n ↦ let (u, s, k, p) = Has-tag_reasons cluster tags n in (u, s, there k, p)
  ]
  | inr e ↦ let (u, s, k, p) = Has-tag_reasons cluster tags (rw e at m) in (u, s, there k, p)
]

Has-pin :
    (b : Bool) {r : ProtectionReason}
    → Has r (if b then inventory_pin ∷ [] else [])
    → (r ≡ inventory_pin) × (b ≡ true)
Has-pin true m = elim (Has-cons m) [ inl e ↦ (e, refl) | inr n ↦ elim n [ ] ]
Has-pin false m = elim m [ ]

guest_reasons-Holds :
    (cluster : Cluster) (guest : Option ResolvedGuest) (failed : Bool) (r : ProtectionReason)
    → Has r (guest_reasons cluster guest failed)
    → Holds cluster guest failed r
unfolding guest_reasons
guest_reasons-Holds cluster none true r m = elim m [ ]
guest_reasons-Holds cluster none false r m = elim (Has-cons m) [
  | inl e ↦ rw e (refl, refl)
  | inr n ↦ elim n [ ]
]
guest_reasons-Holds cluster (some g) failed r m =
    elim (Has-append (tag_reasons cluster g.tags) _ m) [
      | inl t ↦
          let (tag, same, carried, listed) = Has-tag_reasons cluster g.tags t in
          rw same (g, refl, carried, listed)
      | inr p ↦ let (same, e) = Has-pin (pinned cluster g.vmid) p in rw same (g, refl, e)
    ]

Holds-guest_reasons :
    (cluster : Cluster) (g : ResolvedGuest) (failed : Bool)
    → ((tag : Text)
        → Has tag g.tags
        → Has tag cluster.protected_tags
        → Has (live_tag tag) (guest_reasons cluster (some g) failed))
      × (pinned cluster g.vmid ≡ true → Has inventory_pin (guest_reasons cluster (some g) failed))
unfolding guest_reasons
Holds-guest_reasons cluster g failed = (
  λ tag m p. Has-append_left _ (tag_reasons-Has cluster tag g.tags m ((contains_iff _ _).1 p)),
  λ e. rw e (Has-append_right (tag_reasons cluster g.tags) here),
)

-- All reasons, before they are wrapped in a verdict.
all_reasons : Cluster → Option ResolvedGuest → Bool → List ProtectionReason
all_reasons cluster guest failed =
    (if failed then resolution_failed ∷ [] else []) ++ guest_reasons cluster guest failed

reasons_sound :
    (cluster : Cluster) (guest : Option ResolvedGuest) (failed : Bool) (r : ProtectionReason)
    → Has r (all_reasons cluster guest failed)
    → Holds cluster guest failed r
unfolding all_reasons
reasons_sound cluster guest true r m = elim (Has-cons m) [
  | inl e ↦ rw e refl
  | inr n ↦ guest_reasons-Holds cluster guest true r n
]
reasons_sound cluster guest false r m = guest_reasons-Holds cluster guest false r m

reasons_complete :
    (cluster : Cluster) (guest : Option ResolvedGuest) (failed : Bool) (r : ProtectionReason)
    → Holds cluster guest failed r
    → Has r (all_reasons cluster guest failed)
unfolding all_reasons
reasons_complete cluster guest failed (live_tag tag) (g, e, carried, listed) = rw e (
    Has-append_right (if failed then resolution_failed ∷ [] else [])
      ((Holds-guest_reasons cluster g failed).0 tag carried listed))
reasons_complete cluster guest failed inventory_pin (g, e, p) = rw e (
    Has-append_right (if failed then resolution_failed ∷ [] else [])
      ((Holds-guest_reasons cluster g failed).1 p))
reasons_complete cluster guest failed resolution_failed e = rw e here
reasons_complete cluster guest failed unknown_guest (e, f) =
    rw (e, f) (unfold guest_reasons in here)

-- The reasons of a verdict are exactly the protective facts: each one holds that is reported, and
-- each one is reported that holds.
pub protection_of-reasons :
    (cluster : Cluster) (guest : Option ResolvedGuest) (failed : Bool) (r : ProtectionReason)
    → Has r (reasons (protection_of cluster guest failed)) ↔ Holds cluster guest failed r
unfolding protection_of all_reasons
protection_of-reasons cluster guest failed r = (
  λ m. reasons_sound cluster guest failed r (rw reasons-verdict at m),
  λ h. rw reasons-verdict (reasons_complete cluster guest failed r h),
)

-- A guest that the cluster reports, that is not pinned, and none of whose tags is protective.
abbrev pub IsFree : Cluster → ResolvedGuest → Type 0
IsFree cluster guest =
    (pinned cluster guest.vmid ≡ false)
    × ((tag : Text) → Has tag guest.tags → Has tag cluster.protected_tags → ⊥)

no_reason : (r : ProtectionReason) → Has r [] → ⊥
no_reason r m = elim m [ ]

verdict_nil :
    (rs : List ProtectionReason)
    → ((r : ProtectionReason) → Has r rs → ⊥)
    → verdict rs ≡ unprotected
unfolding verdict
verdict_nil [] h = refl
verdict_nil (r ∷ rs) h = absurd (h r here)

IsFree-of :
    (cluster : Cluster) (guest : Option ResolvedGuest) (failed : Bool)
    → ((r : ProtectionReason) → Holds cluster guest failed r → ⊥)
    → (failed ≡ false) × ((g : ResolvedGuest) × (guest ≡ some g) × IsFree cluster g)
IsFree-of cluster guest true h = absurd (h resolution_failed refl)
IsFree-of cluster none false h = absurd (h unknown_guest (refl, refl))
IsFree-of cluster (some g) false h = (
  refl,
  (
    g,
    refl,
    (
      (elim (Bool-cases (pinned cluster g.vmid)) [
        | inl p ↦ absurd (h inventory_pin (g, refl, p))
        | inr n ↦ n
      ]),
      λ tag m l. h (live_tag tag) (g, refl, m, l),
    ),
  ),
)

not-Holds :
    (cluster : Cluster) (g : ResolvedGuest)
    → IsFree cluster g
    → (r : ProtectionReason) → Holds cluster (some g) false r
    → ⊥
not-Holds cluster g (unpinned, untagged) (live_tag tag) (k, e, m, l) =
    untagged tag (rw (← (some_same e)) at m) l
  where
    some_same : ◌≡◌ {A = Option ResolvedGuest} (some g) (some k) → g ≡ k
    some_same e = cc
not-Holds cluster g (unpinned, untagged) inventory_pin (k, e, p) = ground arith
not-Holds cluster g free resolution_failed e = cc
not-Holds cluster g free unknown_guest (e, f) = cc

-- A guest is unprotected exactly if the cluster could be read, reports the guest, does not pin its
-- VMID, and gives it no protective tag. So a failed read and an unknown guest are protected, and
-- clearing the tags of a pinned guest does not free it.
pub unprotected_iff :
    (cluster : Cluster) (guest : Option ResolvedGuest) (failed : Bool)
    → (protection_of cluster guest failed ≡ unprotected)
      ↔ ((failed ≡ false) × ((g : ResolvedGuest) × (guest ≡ some g) × IsFree cluster g))
unfolding protection_of all_reasons
unprotected_iff cluster guest failed = (
  λ e.
      IsFree-of cluster guest failed
        (λ r h. no_reason r (rw e at ((protection_of-reasons cluster guest failed r).1 h))),
  λ (f, (g, e, free)).
      verdict_nil (all_reasons cluster guest failed)
        (λ r m. not-Holds cluster g free r (rw (e, f) at (reasons_sound cluster guest failed r m))),
)
