-- ===== src/Planner/Sound.antt =====
-- What a destructive plan that is recorded has behind it
-- (crates/rust-proxmoxmcp/src/server/mod.rs, `plan_destroy`).
use rustproxmoxmcp.Prelude.{
  ◌≡◌, ◌⊎◌, refl, inl, inr, true, false, ◌||◌, Option, some, [], arith, Bool-cases, Option-cases,
  Result-cases, Has, ok,
}
use rustproxmoxmcp.Text.{Text, codes, ◌==◌}
use rustproxmoxmcp.Inventory.{Cluster}
use rustproxmoxmcp.Grant.{ProxmoxGrant, allows_guest, allows_action}
use rustproxmoxmcp.Guest.{ResolvedGuest, facts}
use rustproxmoxmcp.Tier.{Tier, action}
use rustproxmoxmcp.Protect.{DestructiveAttempt}
use rustproxmoxmcp.Resolve.{GuestIndex, resolve, invalidate_cluster, intent_destructive}
use rustproxmoxmcp.Plan.{
  PlanDestroyArgs, DestroyAction, build_destroy_action, destroy_requires_a_stopped_guest,
  tool_for_op,
}
use rustproxmoxmcp.ChangeSet.{GuestConfigState, state_of}
use rustproxmoxmcp.Server.{
  ProxmoxServer, Caller, client_for, resolve_grant, principal_of, override_for, override_applies,
  authorize_with_override,
}
use rustproxmoxmcp.Server.Excuse.{authorize_with_override-IsExcused}
use rustproxmoxmcp.Server.Live.{IsLive, authorize_with_override-IsLive}
use rustproxmoxmcp.Server.Low.{admit_caller}
use rustproxmoxmcp.Apply.Checks.{device_of}
use rustproxmoxmcp.Apply.Cleared.{IsWaived, waived_of}
use rustproxmoxmcp.Planner.{
  PlanWorld, created, Planned, check_owner, check_migrate, check_plan, owner_of, record_plan,
  check_admitted, plan_override, plan_destroy,
}
use rustproxmoxmcp.Planner.Checks.{
  IsOwnArchive, IsMove, check_owner-IsOwnArchive, check_migrate-IsMove,
}
use rustproxmoxmcp.Planner.Recorded.{record_plan-created}

module _ (server : ProxmoxServer) (plan_world : PlanWorld) (caller : Option Caller)
    (args : PlanDestroyArgs) where
  pub record IsChecked (guest : ResolvedGuest) (planned : Planned) : Type 0 where
    pub built : build_destroy_action plan_world.world.expand_segment args ≡ ok planned.action
    pub owned :
        ((planned.action.op == codes "delete_backup" || planned.action.op == codes "restore_backup")
          ≡ false)
        ⊎ IsOwnArchive plan_world.world planned.action guest args.vmid
    pub stopped :
        (destroy_requires_a_stopped_guest planned.action.op ≡ false)
        ⊎ ((guest.status == codes "stopped") ≡ true)
    pub moved :
        ((planned.action.op == codes "migrate") ≡ false) ⊎ IsMove plan_world planned.action guest
    pub may_call :
        (tool : Text) × (tool_for_op planned.action.op guest.type ≡ some tool)
        × (server.authorize_call caller tool args.cluster ≡ true)
    pub observed :
        (config : GuestConfigState) × (plan_world.world.config_state guest ≡ ok config)
        × (planned.state ≡ state_of args.cluster guest config)

  check_plan-IsChecked :
      (grant : ProxmoxGrant) (guest : ResolvedGuest) (planned : Planned)
      → check_plan server plan_world caller args grant guest ≡ ok planned
      → IsChecked guest planned
  unfolding check_plan
  check_plan-IsChecked grant guest planned h =
      elim (Result-cases (build_destroy_action plan_world.world.expand_segment args)) [
        | inr (e, e1) ↦ absurd (ground (arith, e1))
        | inl (action, e1) ↦
            elim (Result-cases (check_owner plan_world.world action guest args.vmid)) [
              | inr (e, e2) ↦ absurd (ground (arith, e1, e2))
              | inl (tt, e2) ↦ elim (Result-cases (check_migrate plan_world action guest)) [
                | inr (e, e3) ↦ absurd (ground (arith, e1, e2, e3))
                | inl (tt, e3) ↦ elim (Option-cases (tool_for_op action.op guest.type)) [
                  | inl e4 ↦ absurd (ground (arith, e1, e2, e3, e4))
                  | inr (tool, e4) ↦ elim (Result-cases (plan_world.world.config_state guest)) [
                    | inr (e, e5) ↦ absurd (ground (arith, e1, e2, e3, e4, e5))
                    | inl (config, e5) ↦
                        let same : planned ≡ record {
                          action = action;
                          state = state_of args.cluster guest config;
                        } =
                          ground (arith, e1, e2, e3, e4, e5) in
                        rw same (record {
                          built = e1;
                          owned =
                              check_owner-IsOwnArchive plan_world.world action guest args.vmid e2;
                          stopped = elim (Bool-cases (destroy_requires_a_stopped_guest action.op)) [
                            | inr f ↦ inl f
                            | inl f ↦ inr (ground (arith, e1, e2, e3, e4, e5, f))
                          ];
                          moved = check_migrate-IsMove plan_world action guest e3;
                          may_call = (tool, e4, ground (arith, e1, e2, e3, e4, e5));
                          observed = (config, e5, refl);
                        })
                  ]
                ]
              ]
            ]
      ]

  -- What a plan that is recorded has behind it: the caller and the guest of an apply, and the checks of
  -- the plan on that guest.
  pub record IsPlanned (device owner fingerprint : Text) (action' : DestroyAction) : Type 0 where
    pub policy : Cluster
    pub grant : ProxmoxGrant
    pub guest : ResolvedGuest
    pub planned : Planned
    pub may_plan : server.authorize_call caller (codes "plan_proxmox_destroy") args.cluster ≡ true
    pub known : server.clients args.cluster ≡ some policy
    pub held : resolve_grant caller ≡ ok grant
    pub live : IsLive args.cluster args.vmid plan_world.world.first plan_world.world.second guest
    pub in_scope : allows_guest grant (facts guest) ≡ true
    pub may_act : allows_action grant (action Tier.destructive) ≡ true
    pub waived : IsWaived server plan_world.world caller args.cluster args.vmid policy args.op guest
    pub checked : IsChecked guest planned
    pub same_device : device ≡ device_of args.cluster args.vmid
    pub same_action : action' ≡ planned.action
    pub same_owner : owner ≡ owner_of caller
    pub same_fingerprint : fingerprint ≡ plan_world.world.fingerprint planned.state

  -- If `plan_destroy` creates a change set, then the caller may plan; the guest is the one that a reply
  -- of the cluster to this call lists under the number asked for, with that number; it is in the
  -- scope of the caller's grant, which carries the destructive tier, and is not protected, or excused
  -- by lab mode or a waiver for the operation. The action is the one that is built of the arguments,
  -- and the caller may call its tool; an archive of the guest that it deletes or restores is said by the
  -- cluster to be that of the number; a migration leads to another node that is a member of the cluster,
  -- in a way that suits the guest's status; and a guest that is destroyed is stopped. What is recorded
  -- is that action for this guest, with the caller as its owner and the fingerprint of the guest's
  -- state.
  pub plan_destroy-IsPlanned :
      (index : GuestIndex) (device owner fingerprint : Text) (action' : DestroyAction)
      → Has
          (created device action' owner fingerprint)
          (plan_destroy server plan_world index caller args).0.1
      → IsPlanned device owner fingerprint action'
  unfolding plan_destroy check_admitted admit_caller client_for
  plan_destroy-IsPlanned index device owner fingerprint action' m =
      let effects = (plan_destroy server plan_world index caller args).0.1 in
      let nothing : effects ≡ [] → IsPlanned device owner fingerprint action' =
        λ e. elim (rw e at m) [ ] in
      elim (Bool-cases (server.authorize_call caller (codes "plan_proxmox_destroy") args.cluster)) [
        | inr e0 ↦ nothing (ground (arith, e0))
        | inl e0 ↦ elim (Option-cases (server.clients args.cluster)) [
          | inl e1 ↦ nothing (ground (arith, e0, e1))
          | inr (policy, e1) ↦ elim (Result-cases (resolve_grant caller)) [
            | inr (e, e2) ↦ nothing (ground (arith, e0, e1, e2))
            | inl (grant, e2) ↦
                let index' = invalidate_cluster args.cluster index in
                let first = plan_world.world.first in
                let attempt : DestructiveAttempt = record {
                  op = args.op;
                  principal = principal_of caller;
                } in
                let result =
                  authorize_with_override server policy index' first plan_world.world.second
                    args.cluster args.vmid grant attempt intent_destructive in
                elim (Result-cases result.0) [
                  | inr (e, e3) ↦ nothing (ground (arith, e0, e1, e2, e3))
                  | inl (granted, e3) ↦
                      elim (Result-cases
                        (check_plan server plan_world caller args grant granted.guest)) [
                          | inr (e, e4) ↦ nothing (ground (arith, e0, e1, e2, e3, e4))
                          | inl (planned, e4) ↦
                              let o = plan_override server plan_world index caller args policy in
                              let shape : effects
                                  ≡ (record_plan plan_world caller args o planned).1 =
                                ground (arith, e0, e1, e2, e3, e4) in
                              let (d, a, w, f) =
                                record_plan-created plan_world caller args o planned device owner
                                  fingerprint action' (rw shape at m) in
                              let (in_scope, may_act, excuse) =
                                authorize_with_override-IsExcused server policy index' first
                                  plan_world.world.second args.cluster args.vmid grant attempt
                                  intent_destructive (λ b. refl) granted e3 in
                              record {
                                policy = policy;
                                grant = grant;
                                guest = granted.guest;
                                planned = planned;
                                may_plan = e0;
                                known = e1;
                                held = e2;
                                live =
                                    authorize_with_override-IsLive server policy index first
                                      plan_world.world.second args.cluster args.vmid grant attempt
                                      intent_destructive granted e3;
                                in_scope = in_scope;
                                may_act = may_act;
                                waived =
                                    waived_of server plan_world.world caller args.cluster args.vmid
                                      policy args.op
                                      (override_applies (
                                        override_for server policy args.cluster args.vmid
                                          first.now_unix attempt
                                          (resolve index' first.now args.cluster args.vmid
                                            first.reply).0))
                                      granted.guest excuse;
                                checked = check_plan-IsChecked grant granted.guest planned e4;
                                same_device = d;
                                same_action = a;
                                same_owner = w;
                                same_fingerprint = f;
                              }
                        ]
                ]
          ]
        ]
      ]
