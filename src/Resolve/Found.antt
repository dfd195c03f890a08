-- ===== src/Resolve/Found.antt =====
-- Where a resolved guest comes from (crates/rust-proxmoxmcp-core/src/resolve.rs).
use rustproxmoxmcp.Prelude.{
  ℕ, ◌≡◌, ◌⊎◌, refl, sym, ap, ◌∙◌, inl, inr, none, some, arith, Option-cases, Result, ok, err,
}
use rustproxmoxmcp.Text.{Text}
use rustproxmoxmcp.Text.Equality.{eq_refl}
use rustproxmoxmcp.Json.{Json}
use rustproxmoxmcp.Map.{Map, lookup, number_key}
use rustproxmoxmcp.Error.{ProxmoxError, not_found}
use rustproxmoxmcp.Guest.{ResolvedGuest, fetch_guests}
use rustproxmoxmcp.Guest.Listing.{fetch_guests-not_found}
use rustproxmoxmcp.Resolve.{
  GuestIndex, fresh_guest, lookup_fresh, resolve, resolve_from, resolve_fetched, invalidate_cluster,
}
use rustproxmoxmcp.Resolve.Cache.{lookup_fresh-invalidate_cluster}
use rustproxmoxmcp.Resolve.View.{publish-view}

-- The reply of the cluster lists the guest under the number.
abbrev pub IsListed : Text → ℕ → Result Json ProxmoxError → ResolvedGuest → Type 0
IsListed cluster vmid reply guest =
    (guests : Map ℕ ResolvedGuest) × (fetch_guests cluster reply ≡ ok guests)
    × (lookup vmid guests ≡ some guest)

-- The reply lists no guest under the number; or the client itself answers that what was asked for
-- does not exist.
abbrev pub IsUnlisted : Text → ℕ → Result Json ProxmoxError → Type 0
IsUnlisted cluster vmid reply =
    ((guests : Map ℕ ResolvedGuest) × (fetch_guests cluster reply ≡ ok guests)
      × (lookup vmid guests ≡ none))
    ⊎ ((what : Text) × (reply ≡ err (not_found what)))

-- At some time the index answers for the number with the guest, without a request.
abbrev pub IsCached : GuestIndex → Text → ℕ → ResolvedGuest → Type 0
IsCached index cluster vmid guest = (now : ℕ) × (lookup_fresh index now cluster vmid ≡ some guest)

fresh_guest-listed :
    (ttl now taken vmid : ℕ) (guests : Map ℕ ResolvedGuest) (guest : ResolvedGuest)
    → fresh_guest ttl now vmid (some (record { taken = taken; guests = guests })) ≡ some guest
    → lookup vmid guests ≡ some guest
unfolding fresh_guest
fresh_guest-listed ttl now taken vmid guests guest h = ground arith

module _ (index : GuestIndex) (now : ℕ) (cluster : Text) (vmid : ℕ)
    (reply : Result Json ProxmoxError) where
  resolve_fetched-IsListed :
      (fetched : Result (Map ℕ ResolvedGuest) ProxmoxError) (guest : ResolvedGuest)
      → fetch_guests cluster reply ≡ fetched
      → (resolve_fetched index now cluster vmid fetched).0 ≡ ok guest
      → IsListed cluster vmid reply guest
  unfolding resolve_fetched
  resolve_fetched-IsListed (err e) guest same h = absurd (cc)
  resolve_fetched-IsListed (ok guests) guest same h = (guests, same, ground arith)

  resolve_fetched-IsUnlisted :
      (fetched : Result (Map ℕ ResolvedGuest) ProxmoxError) (what : Text)
      → fetch_guests cluster reply ≡ fetched
      → (resolve_fetched index now cluster vmid fetched).0 ≡ err (not_found what)
      → IsUnlisted cluster vmid reply
  unfolding resolve_fetched
  resolve_fetched-IsUnlisted (err e) what same h =
      let missing : e ≡ not_found what = cc in
      inr (what, fetch_guests-not_found cluster reply what (same ∙ ap (λ x. err x) missing))
  resolve_fetched-IsUnlisted (ok guests) what same h = inl (
    guests,
    same,
    elim (Option-cases (lookup vmid guests)) [
      | inl e ↦ e
      | inr (guest, e) ↦ absurd (ground (arith, e, h))
    ],
  )

  -- A guest that is resolved is cached, or listed by the reply.
  pub resolve-found :
      (guest : ResolvedGuest)
      → (resolve index now cluster vmid reply).0 ≡ ok guest
      → IsCached index cluster vmid guest ⊎ IsListed cluster vmid reply guest
  unfolding resolve resolve_from
  resolve-found guest h = elim (Option-cases (lookup_fresh index now cluster vmid)) [
    | inr (cached, e) ↦ inl (now, ground (arith, e, h))
    | inl e ↦ inr (
        resolve_fetched-IsListed (fetch_guests cluster reply) guest refl
          (rw (e, resolve_from) at h))
  ]

  -- A guest is not found only if the reply does not list it.
  pub resolve-IsUnlisted :
      (what : Text)
      → (resolve index now cluster vmid reply).0 ≡ err (not_found what)
      → IsUnlisted cluster vmid reply
  unfolding resolve resolve_from
  resolve-IsUnlisted what h = elim (Option-cases (lookup_fresh index now cluster vmid)) [
    | inr (cached, e) ↦ absurd (ground (arith, e, h))
    | inl e ↦
        resolve_fetched-IsUnlisted (fetch_guests cluster reply) what refl
          (rw (e, resolve_from) at h)
  ]

  resolve_fetched-kept :
      (fetched : Result (Map ℕ ResolvedGuest) ProxmoxError) (v : ℕ) (guest : ResolvedGuest)
      → fetch_guests cluster reply ≡ fetched
      → IsCached (resolve_fetched index now cluster vmid fetched).1 cluster v guest
      → IsCached index cluster v guest ⊎ IsListed cluster v reply guest
  unfolding resolve_fetched
  resolve_fetched-kept (err e) v guest same (later, h) = inl (later, h)
  resolve_fetched-kept (ok guests) v guest same (later, h) = inr (
    guests,
    same,
    fresh_guest-listed index.ttl later now v guests guest
        (sym (publish-view index now cluster guests later v) ∙ h),
  )

  -- What is cached of the cluster after a resolution was cached before it, or is listed by its reply.
  pub resolve-kept :
      (v : ℕ) (guest : ResolvedGuest)
      → IsCached (resolve index now cluster vmid reply).1 cluster v guest
      → IsCached index cluster v guest ⊎ IsListed cluster v reply guest
  unfolding resolve resolve_from
  resolve-kept v guest c = elim (Option-cases (lookup_fresh index now cluster vmid)) [
    | inr (cached, e) ↦ inl (rw (e, resolve_from) at c)
    | inl e ↦
        resolve_fetched-kept (fetch_guests cluster reply) v guest refl (rw (e, resolve_from) at c)
  ]

-- Nothing of a cluster is cached once its snapshot is dropped.
pub dropped-IsCached :
    (index : GuestIndex) (cluster : Text) (v : ℕ) (guest : ResolvedGuest)
    → IsCached (invalidate_cluster cluster index) cluster v guest
    → ⊥
dropped-IsCached index cluster v guest (now, h) =
    absurd (cc (rw (lookup_fresh-invalidate_cluster, eq_refl cluster) at h))
