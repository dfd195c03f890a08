-- ===== src/Server/Lifecycle.antt =====
-- What a lifecycle verb that is sent has behind it
-- (crates/rust-proxmoxmcp/src/server/mod.rs, `serve_lifecycle`).
use rustproxmoxmcp.Prelude.{
  ℕ, ◌≡◌, ◌⊎◌, refl, ap, ◌∙◌, inl, inr, Bool, true, false, Option, some, [], ◌∷◌, arith, Bool-cases,
  Option-cases, Result-cases, Has, Has-cons, Result, ok,
}
use rustproxmoxmcp.Text.{Text, codes}
use rustproxmoxmcp.Text.Number.{decimal}
use rustproxmoxmcp.Error.{ProxmoxError}
use rustproxmoxmcp.Selector.{GuestType, lxc, qemu, same_type}
use rustproxmoxmcp.Inventory.{Cluster}
use rustproxmoxmcp.Grant.{ProxmoxGrant, allows_guest, allows_action}
use rustproxmoxmcp.Guest.{ResolvedGuest, facts}
use rustproxmoxmcp.Tier.{Tier, action, interrupts_service}
use rustproxmoxmcp.Waiver.{WaiverEntry}
use rustproxmoxmcp.Waiver.Match.{Covers}
use rustproxmoxmcp.Protect.{protection_of, is_protected, DestructiveAttempt}
use rustproxmoxmcp.Resolve.{
  GuestIndex, Intent, AuthorizedGuest, is_destructive, resolve, intent_low_with_override,
}
use rustproxmoxmcp.Resolve.Cache.{IsUsed, lookup_fresh-owned}
use rustproxmoxmcp.Resolve.Found.{IsCached}
use rustproxmoxmcp.Server.{
  ProxmoxServer, Caller, Moment, resolve_grant, client_for, principal_of, override_for,
  override_applies, authorize_with_override,
}
use rustproxmoxmcp.Server.Excuse.{IsExcused, authorize_with_override-IsExcused}
use rustproxmoxmcp.Server.Live.{
  IsListedNow, IsListedNow-IsLive, authorize_with_override-found, authorize_with_override-IsLive,
}
use rustproxmoxmcp.Server.Low.{
  LifecycleVerb, LifecycleCall, gate_direct_commit, admit_caller, index_for, check_lifecycle,
  choose_lifecycle, serve_lifecycle,
}

same_type_sound : (a b : GuestType) → same_type a b ≡ true → a ≡ b
unfolding same_type
same_type_sound lxc lxc h = refl
same_type_sound qemu qemu h = refl
same_type_sound lxc qemu h = absurd (cc)
same_type_sound qemu lxc h = absurd (cc)

module _ (server : ProxmoxServer) (first second : Moment) (caller : Option Caller) (tool : Text)
    (verb : LifecycleVerb) (required_type : GuestType) (cluster : Text) (vmid : ℕ) where
  -- The guest is listed under the number by a reply of the cluster to this call; or the tool does not
  -- interrupt service, and the guest is cached under the number.
  abbrev pub IsSeen : GuestIndex → ResolvedGuest → Type 0
  IsSeen index guest =
      ((interrupts_service tool ≡ false) × IsCached index cluster vmid guest)
      ⊎ IsListedNow cluster vmid first second guest

  pub record IsLifecycle (index : GuestIndex) (call : LifecycleCall) : Type 0 where
    pub policy : Cluster
    pub grant : ProxmoxGrant
    pub guest : ResolvedGuest
    pub may_call : server.authorize_call caller tool cluster ≡ true
    pub known : server.clients cluster ≡ some policy
    pub held : resolve_grant caller ≡ ok grant
    pub asked :
        call ≡ record { node = guest.node; kind = required_type; vmid = guest.vmid; verb = verb }
    pub seen : IsSeen index guest
    pub same_vmid : call.vmid ≡ vmid
    pub same_cluster : guest.cluster ≡ cluster
    pub in_scope : allows_guest grant (facts guest) ≡ true
    pub may_act : allows_action grant (action Tier.low) ≡ true
    pub gated :
        (interrupts_service tool ≡ false)
        ⊎ ((server.direct_commit caller tool (codes "interrupt") (decimal guest.vmid) ≡ true)
            × ((is_protected (protection_of policy (some guest) false) ≡ false)
                ⊎ ((server.in_lab_mode ≡ true)
                    ⊎ ((entry : WaiverEntry) × Has entry server.waivers.waivers
                        × Covers entry cluster vmid first.now_unix tool (principal_of caller)))))

  gated_of :
      (policy : Cluster) (applies : Bool) (guest : ResolvedGuest)
      → (interrupts_service tool ≡ false)
        ⊎ (server.direct_commit caller tool (codes "interrupt") (decimal guest.vmid) ≡ true)
      → IsExcused server policy cluster vmid first.now_unix
          (record { op = tool; principal = principal_of caller })
          (intent_low_with_override tool applies)
          guest
      → (interrupts_service tool ≡ false)
        ⊎ ((server.direct_commit caller tool (codes "interrupt") (decimal guest.vmid) ≡ true)
            × ((is_protected (protection_of policy (some guest) false) ≡ false)
                ⊎ ((server.in_lab_mode ≡ true)
                    ⊎ ((entry : WaiverEntry) × Has entry server.waivers.waivers
                        × Covers entry cluster vmid first.now_unix tool (principal_of caller)))))
  unfolding is_destructive
  gated_of policy applies guest (inl quiet) excuse = inl quiet
  gated_of policy applies guest (inr committed) (inl nothing) = inl nothing
  gated_of policy applies guest (inr committed) (inr rest) = inr (committed, rest)

  check_lifecycle_sound :
      (a : AuthorizedGuest) (call : LifecycleCall)
      → check_lifecycle server caller tool verb required_type a ≡ ok call
      → (call
          ≡ record { node = a.guest.node; kind = required_type; vmid = a.guest.vmid; verb = verb })
        × ((interrupts_service tool ≡ false)
            ⊎ (server.direct_commit caller tool (codes "interrupt") (decimal a.guest.vmid) ≡ true))
  unfolding check_lifecycle gate_direct_commit
  check_lifecycle_sound a call h =
      let same : same_type a.guest.type required_type ≡ true =
        elim (Bool-cases (interrupts_service tool)) [
          | inl e ↦ ground (arith, e)
          | inr e ↦ ground (arith, e)
        ] in
      let kind = same_type_sound a.guest.type required_type same in
      elim (Bool-cases (interrupts_service tool)) [
        | inr e ↦ (ground (arith, e, same, kind), inl e)
        | inl e ↦ (ground (arith, e, same, kind), inr (ground (arith, e, same)))
      ]

  authorize-IsSeen :
      (index : GuestIndex) (policy : Cluster) (grant : ProxmoxGrant) (attempt : DestructiveAttempt)
      (intent : Bool → Intent) (a : AuthorizedGuest)
      → (authorize_with_override server policy
          (index_for (interrupts_service tool) cluster index)
          first
          second
          cluster
          vmid
          grant
          attempt
          intent).0
        ≡ ok a
      → IsSeen index a.guest
  unfolding index_for
  authorize-IsSeen index policy grant attempt intent a h =
      elim (Bool-cases (interrupts_service tool)) [
        | inl e ↦ inr (
            (authorize_with_override-IsLive server policy index first second cluster vmid grant
              attempt intent a (rw (e, index_for) at h)).listed)
        | inr e ↦
            elim (authorize_with_override-found server policy index first second cluster vmid grant
              attempt intent a (rw (e, index_for) at h)) [
                | inl cached ↦ inl (e, cached)
                | inr listed ↦ inr listed
              ]
      ]

  IsSeen-owned :
      (index : GuestIndex) (guest : ResolvedGuest)
      → IsUsed index
      → IsSeen index guest
      → (guest.vmid ≡ vmid) × (guest.cluster ≡ cluster)
  IsSeen-owned index guest used (inl (quiet, (now, h))) =
      lookup_fresh-owned index now cluster vmid guest used h
  IsSeen-owned index guest used (inr listed) =
      let live = IsListedNow-IsLive cluster vmid first second guest listed in
      (live.same_vmid, live.same_cluster)

  choose_lifecycle-IsLifecycle :
      (index : GuestIndex) (call : LifecycleCall)
      → IsUsed index
      → (choose_lifecycle server index first second caller tool verb required_type cluster vmid).0
        ≡ ok call
      → IsLifecycle index call
  unfolding choose_lifecycle admit_caller client_for
  choose_lifecycle-IsLifecycle index call used h = elim (Option-cases (server.clients cluster)) [
    | inl e ↦ absurd (ground (arith, e))
    | inr (policy, e) ↦ elim (Result-cases (resolve_grant caller)) [
      | inr (problem, e1) ↦ absurd (ground (arith, e, e1))
      | inl (grant, e1) ↦
          let index' = index_for (interrupts_service tool) cluster index in
          let attempt : DestructiveAttempt = record {
            op = tool;
            principal = principal_of caller;
          } in
          let result =
            authorize_with_override server policy index' first second cluster vmid grant attempt
              (intent_low_with_override tool) in
          elim (Result-cases result.0) [
            | inr (problem, e2) ↦ absurd (ground (arith, e, e1, e2))
            | inl (granted, e2) ↦
                let (asked, committed) =
                  check_lifecycle_sound granted call (ground (arith, e, e1, e2)) in
                let (in_scope, may_act, excuse) =
                  authorize_with_override-IsExcused server policy index' first second cluster vmid
                    grant attempt (intent_low_with_override tool) (λ b. refl) granted e2 in
                let seen =
                  authorize-IsSeen index policy grant attempt (intent_low_with_override tool)
                    granted e2 in
                let (number, home) = IsSeen-owned index granted.guest used seen in
                record {
                  seen = seen;
                  same_vmid = ap (λ (c : LifecycleCall). c.vmid) asked ∙ number;
                  same_cluster = home;
                  policy = policy;
                  grant = grant;
                  guest = granted.guest;
                  may_call = ground (arith, e, e1);
                  known = e;
                  held = e1;
                  asked = asked;
                  in_scope = in_scope;
                  may_act = may_act;
                  gated =
                      gated_of policy
                        (override_applies (
                          override_for server policy cluster vmid first.now_unix attempt
                            (resolve index' first.now cluster vmid first.reply).0))
                        granted.guest committed excuse;
                }
          ]
    ]
  ]

  -- Whatever resolutions and invalidations the index has seen, if `serve_lifecycle` sends a call to the
  -- cluster, then the caller may call the tool, the cluster is known, and the call names the number
  -- asked for and the node of a guest of the tool's type, which is that of the number: a reply of the
  -- cluster to this call lists it there, or, if the tool does not interrupt service, the cache holds it
  -- there. The guest is in the scope of the caller's grant, which carries the low tier; and if the tool
  -- interrupts service, direct commits are allowed for it, and the guest is not protected, or the server
  -- is in lab mode, or a waiver covers the tool for this caller.
  pub serve_lifecycle-IsLifecycle :
      (lifecycle : LifecycleCall → Result Text ProxmoxError) (index : GuestIndex)
      (call : LifecycleCall)
      → IsUsed index
      → Has call
          (serve_lifecycle server lifecycle index first second caller tool verb required_type
            cluster vmid).0.1
      → IsLifecycle index call
  unfolding serve_lifecycle
  serve_lifecycle-IsLifecycle lifecycle index call used m =
      elim (Result-cases
        (choose_lifecycle server index first second caller tool verb required_type cluster
          vmid).0) [
            | inr (problem, e) ↦
                let none_sent : (serve_lifecycle server lifecycle index first second caller tool
                      verb required_type cluster vmid).0.1
                    ≡ [] =
                  ground (arith, e) in
                elim (rw none_sent at m) [ ]
            | inl (chosen, e) ↦
                let one_sent : (serve_lifecycle server lifecycle index first second caller tool verb
                      required_type cluster vmid).0.1
                    ≡ chosen ∷ [] =
                  ground (arith, e) in
                elim (Has-cons (rw one_sent at m)) [
                  | inl same ↦ rw same (choose_lifecycle-IsLifecycle index chosen used e)
                  | inr n ↦ elim n [ ]
                ]
          ]
