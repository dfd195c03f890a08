-- ===== src/Server/Excuse.antt =====
-- What a call that was authorized with an override has behind it
-- (crates/rust-proxmoxmcp/src/server/mod.rs).
use rustproxmoxmcp.Prelude.{
  ℕ, ◌≡◌, ◌⊎◌, ◌∙◌, sym, refl, inl, inr, Bool, true, false, Option, some, Has, Result, ok,
}
use rustproxmoxmcp.Text.{Text}
use rustproxmoxmcp.Error.{ProxmoxError}
use rustproxmoxmcp.Grant.{ProxmoxGrant, allows_guest, allows_action}
use rustproxmoxmcp.Inventory.{Cluster}
use rustproxmoxmcp.Guest.{ResolvedGuest, facts}
use rustproxmoxmcp.Tier.{action}
use rustproxmoxmcp.Waiver.{WaiverEntry}
use rustproxmoxmcp.Waiver.Match.{Covers}
use rustproxmoxmcp.Protect.{
  Override, no_override, waiver, lab_mode, DestructiveAttempt, protection_of, is_protected,
}
use rustproxmoxmcp.Protect.Allowed.{overrides, overrides-cases}
use rustproxmoxmcp.Resolve.{GuestIndex, Intent, AuthorizedGuest, resolve}
use rustproxmoxmcp.Resolve.Gate.{authorize_iff, disrupts}
use rustproxmoxmcp.Server.{
  ProxmoxServer, Moment, observed_protection, override_applies, override_for,
  authorize_with_override,
}

-- What lets a call disrupt a guest: nothing is disrupted, or the guest is not protected, or the server
-- is in lab mode, or a waiver in the file covers the attempt at the time of the call.
abbrev pub IsExcused :
    ProxmoxServer → Cluster → Text → ℕ → ℕ → DestructiveAttempt → Intent → ResolvedGuest → Type 0
IsExcused server policy cluster vmid now_unix attempt intent guest =
    (disrupts intent ≡ false)
    ⊎ ((is_protected (protection_of policy (some guest) false) ≡ false)
        ⊎ ((server.in_lab_mode ≡ true)
            ⊎ ((entry : WaiverEntry) × Has entry server.waivers.waivers
                × Covers entry cluster vmid now_unix attempt.op attempt.principal)))

pub overrides-override_applies : (o : Override) → override_applies o ≡ overrides o
unfolding override_applies
overrides-override_applies no_override = refl
overrides-override_applies (waiver reason ticket until) = refl
overrides-override_applies lab_mode = refl

pub override_applies-excused :
    (server : ProxmoxServer) (policy : Cluster) (cluster : Text) (vmid now_unix : ℕ)
    (attempt : DestructiveAttempt) (resolved : Result ResolvedGuest ProxmoxError)
    → override_applies (override_for server policy cluster vmid now_unix attempt resolved) ≡ true
    → (server.in_lab_mode ≡ true)
      ⊎ ((entry : WaiverEntry) × Has entry server.waivers.waivers
          × Covers entry cluster vmid now_unix attempt.op attempt.principal)
unfolding override_for
override_applies-excused server policy cluster vmid now_unix attempt resolved h =
    elim (overrides-cases (observed_protection policy resolved) server.waivers cluster vmid now_unix
      server.in_lab_mode attempt (rw overrides-override_applies at h)) [
        | inl waived ↦ inr waived
        | inr lab ↦ inl lab
      ]

pub some-injective : {a b : Bool} → ◌≡◌ {A = Option Bool} (some a) (some b) → a ≡ b
some-injective h = cc

module _ (server : ProxmoxServer) (policy : Cluster) (index : GuestIndex) (first second : Moment)
    (cluster : Text) (vmid : ℕ) (grant : ProxmoxGrant) (attempt : DestructiveAttempt)
    (intent : Bool → Intent) where
  -- The intent that the second step authorizes.
  abbrev pub decided : Intent
  decided = intent (
      override_applies (
        override_for server policy cluster vmid first.now_unix attempt
          (resolve index first.now cluster vmid first.reply).0))

  -- If the intent takes over the answer to whether an override applies, then whatever is authorized is
  -- in the scope of the grant as the guest is now, the grant carries the tier, and the call is excused:
  -- it disrupts nothing, or the guest is not protected, or the server is in lab mode, or a waiver in
  -- the file covers the operation, the guest and the caller at the time of the call.
  pub authorize_with_override-IsExcused :
      ((b : Bool) → (intent b).override_applies ≡ some b)
      → (a : AuthorizedGuest)
      → (authorize_with_override server policy index first second cluster vmid grant attempt
          intent).0
        ≡ ok a
      → (allows_guest grant (facts a.guest) ≡ true)
        × (allows_action grant (action decided.tier) ≡ true)
        × IsExcused server policy cluster vmid first.now_unix attempt decided a.guest
  unfolding authorize_with_override
  authorize_with_override-IsExcused carries a h =
      let (guest, resolved, i) =
        (authorize_iff policy cluster vmid grant decided
            (resolve index first.now cluster vmid first.reply).1 second.now second.reply a).0
          h in
      (rw i.same_guest i.in_scope, i.may_act, rw i.same_guest (excuse guest i.spared))
    where
      excuse :
          (guest : ResolvedGuest)
          → (disrupts decided ≡ false)
            ⊎ ((is_protected (protection_of policy (some guest) false) ≡ false)
                ⊎ (decided.override_applies ≡ some true))
          → IsExcused server policy cluster vmid first.now_unix attempt decided guest
      excuse guest (inl nothing) = inl nothing
      excuse guest (inr (inl free)) = inr (inl free)
      excuse guest (inr (inr applies)) = inr (
          inr (
            override_applies-excused server policy cluster vmid first.now_unix attempt _
              (some-injective (sym (carries _) ∙ applies))))
