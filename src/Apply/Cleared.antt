-- ===== src/Apply/Cleared.antt =====
-- What stands behind a change set that the checks let pass
-- (crates/rust-proxmoxmcp/src/server/mod.rs, `apply_change_set`).
use rustproxmoxmcp.Prelude.{
  ℕ, ◌≡◌, ◌⊎◌, refl, ap, inl, inr, Bool, true, false, Option, some, is_empty, arith, Option-cases,
  Result-cases, ok, Has,
}
use rustproxmoxmcp.Text.{Text, codes, ◌==◌}
use rustproxmoxmcp.Inventory.{Cluster}
use rustproxmoxmcp.Waiver.{WaiverEntry}
use rustproxmoxmcp.Waiver.Match.{Covers}
use rustproxmoxmcp.Grant.{allows_guest, allows_action}
use rustproxmoxmcp.Guest.{ResolvedGuest, facts}
use rustproxmoxmcp.Tier.{Tier, action}
use rustproxmoxmcp.Protect.{DestructiveAttempt, protection_of, is_protected}
use rustproxmoxmcp.Resolve.{
  GuestIndex, is_destructive, resolve, invalidate_cluster, intent_destructive,
}
use rustproxmoxmcp.Plan.{tool_for_op, missing_required_fields}
use rustproxmoxmcp.ChangeSet.{GuestConfigState, state_of}
use rustproxmoxmcp.Server.{
  ProxmoxServer, Caller, client_for, resolve_grant, principal_of, override_applies, override_for,
  authorize_with_override,
}
use rustproxmoxmcp.Server.Excuse.{IsExcused, authorize_with_override-IsExcused}
use rustproxmoxmcp.Server.Live.{IsLive, authorize_with_override-IsLive}
use rustproxmoxmcp.Apply.{World}
use rustproxmoxmcp.Apply.Checks.{
  Opened, Cleared, is_none, is_approved, device_of, op_of, first_action, open_change_set,
  check_record, check_opened, check_apply,
}

module _ (server : ProxmoxServer) (world : World) (caller : Option Caller) (cluster : Text)
    (vmid : ℕ) where
  -- The record was found, with a preview.
  pub record IsOpened (change_set_id : Text) (opened : Opened) : Type 0 where
    pub may_apply : server.authorize_call caller (codes "apply_proxmox_change_set") cluster ≡ true
    pub known : server.clients cluster ≡ some opened.policy
    pub found : world.change_set change_set_id (device_of cluster vmid) ≡ ok opened.change_set
    pub previewed : is_none opened.change_set.preview ≡ false
    pub held : resolve_grant caller ≡ ok opened.grant

  -- The record is what was approved, and nothing is left out of its action.
  pub record IsChecked (opened : Opened) (guest : ResolvedGuest) (cleared : Cleared) : Type 0 where
    pub same_set : cleared.change_set ≡ opened.change_set
    pub same_guest : cleared.guest ≡ guest
    pub unchanged :
        (config : GuestConfigState) × (world.config_state guest ≡ ok config)
        × ((world.fingerprint (state_of cluster guest config)
              == opened.change_set.expected_candidate_fingerprint)
            ≡ true)
    pub approved : is_approved opened.change_set.state ≡ true
    pub acts : first_action world opened.change_set.actions ≡ ok cleared.action
    pub may_call :
        (tool : Text) × (tool_for_op cleared.action.op guest.type ≡ some tool)
        × (server.authorize_call caller tool cluster ≡ true)
    pub complete : is_empty (missing_required_fields cleared.action) ≡ true

  pub open_change_set-IsOpened :
      (change_set_id : Text) (opened : Opened)
      → open_change_set server world caller cluster vmid change_set_id ≡ ok opened
      → IsOpened change_set_id opened
  unfolding open_change_set client_for
  open_change_set-IsOpened change_set_id opened h = elim (Option-cases (server.clients cluster)) [
    | inl none' ↦ absurd (ground (arith, none'))
    | inr (policy, e1) ↦
        elim (Result-cases (world.change_set change_set_id (device_of cluster vmid))) [
          | inr (e, e2) ↦ absurd (ground (arith, e1, e2))
          | inl (change, e2) ↦ elim (Result-cases (resolve_grant caller)) [
            | inr (e, e3) ↦ absurd (ground (arith, e1, e2, e3))
            | inl (grant, e3) ↦ record {
              may_apply = ground (arith, e1, e2, e3);
              known = ground (arith, e1, e2, e3);
              found = ground (arith, e1, e2, e3);
              previewed = ground (arith, e1, e2, e3);
              held = ground (arith, e1, e2, e3);
            }
          ]
        ]
  ]

  pub check_record-IsChecked :
      (opened : Opened) (guest : ResolvedGuest) (cleared : Cleared)
      → check_record server world caller cluster opened guest ≡ ok cleared
      → IsChecked opened guest cleared
  unfolding check_record
  check_record-IsChecked opened guest cleared h = elim (Result-cases (world.config_state guest)) [
    | inr (e, e1) ↦ absurd (ground (arith, e1))
    | inl (config, e1) ↦ elim (Result-cases (first_action world opened.change_set.actions)) [
      | inr (e, e2) ↦ absurd (ground (arith, e1, e2))
      | inl (action, e2) ↦ elim (Option-cases (tool_for_op action.op guest.type)) [
        | inl e3 ↦ absurd (ground (arith, e1, e2, e3))
        | inr (tool, e3) ↦
            let same : cleared
                ≡ record { change_set = opened.change_set; guest = guest; action = action } =
              ground (arith, e1, e2, e3) in
            record {
              same_set = ap (λ (c : Cleared). c.change_set) same;
              same_guest = ap (λ (c : Cleared). c.guest) same;
              unchanged = (config, e1, ground (arith, e1, e2, e3));
              approved = ground (arith, e1, e2, e3);
              acts = rw same e2;
              may_call = (tool, rw same e3, ground (arith, e1, e2, e3));
              complete = rw same (ground (arith, e1, e2, e3));
            }
      ]
    ]
  ]

  -- The guest is not protected, or the server is in lab mode, or a waiver covers the operation that
  -- the record names.
  abbrev pub IsWaived : Cluster → Text → ResolvedGuest → Type 0
  IsWaived policy op guest =
      (is_protected (protection_of policy (some guest) false) ≡ false)
      ⊎ ((server.in_lab_mode ≡ true)
          ⊎ ((entry : WaiverEntry) × Has entry server.waivers.waivers
              × Covers entry cluster vmid world.first.now_unix op (principal_of caller)))

  pub record IsCleared (change_set_id : Text) (cleared : Cleared) : Type 0 where
    pub opened : Opened
    pub is_opened : IsOpened change_set_id opened
    pub is_checked : IsChecked opened cleared.guest cleared
    pub op : Text
    pub named : op_of opened.change_set.actions ≡ some op
    pub live : IsLive cluster vmid world.first world.second cleared.guest
    pub in_scope : allows_guest opened.grant (facts cleared.guest) ≡ true
    pub may_act : allows_action opened.grant (action Tier.destructive) ≡ true
    pub waived : IsWaived opened.policy op cleared.guest

  pub waived_of :
      (policy : Cluster) (op : Text) (applies : Bool) (guest : ResolvedGuest)
      → IsExcused server policy cluster vmid world.first.now_unix
          (record { op = op; principal = principal_of caller })
          (intent_destructive applies)
          guest
      → IsWaived policy op guest
  unfolding is_destructive
  waived_of policy op applies guest (inl nothing) = absurd (cc)
  waived_of policy op applies guest (inr rest) = rest

  IsChecked-of-guest :
      (opened : Opened) (guest guest' : ResolvedGuest) (cleared : Cleared)
      → guest' ≡ guest
      → IsChecked opened guest cleared
      → IsChecked opened guest' cleared
  IsChecked-of-guest opened guest guest' cleared same checked = rw same checked

  check_opened-IsCleared :
      (change_set_id : Text) (index : GuestIndex) (opened : Opened) (cleared : Cleared)
      → IsOpened change_set_id opened
      → (check_opened server world index caller cluster vmid opened).0 ≡ ok cleared
      → IsCleared change_set_id cleared
  unfolding check_opened
  check_opened-IsCleared change_set_id index opened cleared is_opened h =
      elim (Option-cases (op_of opened.change_set.actions)) [
        | inl e ↦ absurd (ground (arith, e))
        | inr (op, e) ↦
            let attempt : DestructiveAttempt = record {
              op = op;
              principal = principal_of caller;
            } in
            let result =
              authorize_with_override server opened.policy (invalidate_cluster cluster index)
                world.first world.second cluster vmid opened.grant attempt intent_destructive in
            elim (Result-cases result.0) [
              | inr (problem, e1) ↦ absurd (ground (arith, e, e1))
              | inl (granted, e1) ↦
                  let checked =
                    check_record-IsChecked opened granted.guest cleared (ground (arith, e, e1)) in
                  let (in_scope, may_act, excuse) =
                    authorize_with_override-IsExcused server opened.policy
                      (invalidate_cluster cluster index) world.first world.second cluster vmid
                      opened.grant attempt intent_destructive (λ b. refl) granted e1 in
                  record {
                    opened = opened;
                    is_opened = is_opened;
                    is_checked =
                        IsChecked-of-guest opened granted.guest cleared.guest cleared
                          checked.same_guest checked;
                    op = op;
                    named = e;
                    live = rw checked.same_guest (
                        authorize_with_override-IsLive server opened.policy index world.first
                          world.second cluster vmid opened.grant attempt intent_destructive granted
                          e1);
                    in_scope = rw checked.same_guest in_scope;
                    may_act = may_act;
                    waived = rw checked.same_guest (
                        waived_of opened.policy op
                          (override_applies (
                            override_for server opened.policy cluster vmid world.first.now_unix
                              attempt
                              (resolve (invalidate_cluster cluster index) world.first.now cluster
                                vmid world.first.reply).0))
                          granted.guest excuse);
                  }
            ]
      ]

  -- If the checks let a change set pass, then: the caller may call the tool; the record was found for
  -- this device, has a preview and is approved; the cluster is known; the fingerprint of the guest as
  -- it is now is the one that was approved; the action is read from the record's first action, whose
  -- `op` names the operation that a waiver must cover; the caller may call the tool of the action's
  -- operation; no field of the action is missing; the guest is the one that the cluster lists under the
  -- number asked for while the call runs, and it is in the caller's scope, with the destructive tier; and the guest is not protected, or the server is in lab mode, or a waiver covers
  -- the operation for this caller.
  pub check_apply-IsCleared :
      (index : GuestIndex) (change_set_id : Text) (cleared : Cleared)
      → (check_apply server world index caller cluster vmid change_set_id).0 ≡ ok cleared
      → IsCleared change_set_id cleared
  unfolding check_apply
  check_apply-IsCleared index change_set_id cleared h =
      elim (Result-cases (open_change_set server world caller cluster vmid change_set_id)) [
        | inr (e, e1) ↦ absurd (ground (arith, e1))
        | inl (opened, e1) ↦
            check_opened-IsCleared change_set_id index opened cleared
              (open_change_set-IsOpened change_set_id opened e1) (ground (arith, e1))
      ]
