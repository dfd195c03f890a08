-- ===== src/Protect/Allowed.antt =====
-- When a destructive operation may go ahead on a guest.
use rustproxmoxmcp.Prelude.{
  ℕ, ◌≡◌, ◌↔◌, ◌⊎◌, inl, inr, Bool, true, false, arith, Has, Bool-cases, Option-cases,
}
use rustproxmoxmcp.Text.{Text}
use rustproxmoxmcp.Waiver.{WaiverFile, WaiverEntry, matching}
use rustproxmoxmcp.Waiver.Match.{Covers, matching_lem}
use rustproxmoxmcp.Protect.{
  Protection, is_protected, Override, no_override, waiver, override_by, DestructiveAttempt,
  destructive_allowed,
}

abbrev pub overrides : Override → Bool
overrides no_override = false
overrides _ = true

module _ (protection : Protection) (file : WaiverFile) (cluster : Text) (vmid now : ℕ) (lab : Bool)
    (attempt : DestructiveAttempt) where
  -- A waiver in the file that covers the attempt.
  abbrev pub IsWaived : Type 0
  IsWaived =
      (entry : WaiverEntry) × Has entry file.waivers
      × Covers entry cluster vmid now attempt.op attempt.principal

  -- A waiver goes before lab mode: if one covers the attempt on a protected guest, the override
  -- names the reason, the ticket and the expiry of a waiver in the file that covers it.
  pub destructive_allowed_waiver :
      is_protected protection ≡ true
      → IsWaived
      → (entry : WaiverEntry) × Has entry file.waivers
        × Covers entry cluster vmid now attempt.op attempt.principal
        × (destructive_allowed protection file cluster vmid now lab attempt
            ≡ waiver entry.reason entry.ticket entry.until_unix)
  unfolding destructive_allowed
  destructive_allowed_waiver p (entry, m, c) =
      let (found, e) =
        (matching_lem cluster vmid now attempt.op attempt.principal file).1 entry m c in
      let (listed, covers) =
        (matching_lem cluster vmid now attempt.op attempt.principal file).0 found e in
      (found, listed, covers, rw (p, e, override_by))

  waived_overrides :
      is_protected protection ≡ true
      → IsWaived
      → overrides (destructive_allowed protection file cluster vmid now lab attempt) ≡ true
  waived_overrides p w = let (entry, m, c, e) = destructive_allowed_waiver p w in rw e

  lab-overrides :
      is_protected protection ≡ true
      → lab ≡ true
      → overrides (destructive_allowed protection file cluster vmid now lab attempt) ≡ true
  unfolding destructive_allowed override_by
  lab-overrides p l = ground arith

  pub overrides-cases :
      overrides (destructive_allowed protection file cluster vmid now lab attempt) ≡ true
      → IsWaived ⊎ (lab ≡ true)
  unfolding destructive_allowed override_by
  overrides-cases o =
      elim (Option-cases (matching file cluster vmid now attempt.op attempt.principal)) [
        | inl e ↦ inr (ground arith)
        | inr (entry, e) ↦
            let (m, c) =
              (matching_lem cluster vmid now attempt.op attempt.principal file).0 entry e in
            inl (entry, m, c)
      ]

  -- The rule of the design: an operation may go ahead if the guest is not protected, or a waiver
  -- covers it, or the server is in lab mode; and in no other case.
  pub destructive_allowed_iff :
      ((is_protected protection ≡ false)
        ⊎ (overrides (destructive_allowed protection file cluster vmid now lab attempt) ≡ true))
      ↔ ((is_protected protection ≡ false) ⊎ (IsWaived ⊎ (lab ≡ true)))
  destructive_allowed_iff = (
    λ h. elim h [ inl free ↦ inl free | inr o ↦ inr (overrides-cases o) ],
    λ h. elim (Bool-cases (is_protected protection)) [
      | inl p ↦ inr (by_cause p h)
      | inr free ↦ inl free
    ],
  )
    where
      by_cause :
          is_protected protection ≡ true
          → (is_protected protection ≡ false) ⊎ (IsWaived ⊎ (lab ≡ true))
          → overrides (destructive_allowed protection file cluster vmid now lab attempt) ≡ true
      by_cause p (inl free) = absurd (ground arith)
      by_cause p (inr (inl w)) = waived_overrides p w
      by_cause p (inr (inr l)) = lab-overrides p l
