-- ===== src/Apply/Settled.antt =====
-- How an apply ends: settled when it succeeds, open when the cluster gave no definite answer
-- (crates/rust-proxmoxmcp/src/server/mod.rs, `apply_change_set`).
use rustproxmoxmcp.Prelude.{
  ℕ, ◌≡◌, ◌⊎◌, refl, inl, inr, Bool, true, false, Option, none, some, List, [], ◌∷◌, ◌++◌, all,
  all-at, Has, here, there, Has-append_left, Has-append_right, is_empty, arith, Bool-cases,
  Result-cases, Result, ok, err, is_ok,
}
use rustproxmoxmcp.Text.{Text}
use rustproxmoxmcp.Error.{ProxmoxError, http, malformed, config, unknown_cluster}
use rustproxmoxmcp.Resolve.{GuestIndex}
use rustproxmoxmcp.Task.{parse, classify_exit_status, succeeded, failed, TaskOutcome}
use rustproxmoxmcp.ChangeSet.{ChangeSet, ChangeSetState, Request}
use rustproxmoxmcp.Server.{ProxmoxServer, Caller}
use rustproxmoxmcp.Apply.{
  World, Effect, sent, receipted, stored, logged, choose_request, answer_to, execute_destructive,
}
use rustproxmoxmcp.Apply.Checks.{Cleared, check_apply}
use rustproxmoxmcp.Apply.Commit.{
  log_failure, receipt, store, settle, is_definitive, after_failure, after_task, follow_task,
  after_answer, execute, intend, commit, apply_change_set,
}
use rustproxmoxmcp.Apply.Sent.{opening, apply_change_set_sent}
use rustproxmoxmcp.Apply.Receipts.{reports}

abbrev reports_nothing : Option Bool → Bool
reports_nothing none = true
reports_nothing (some said) = false

nothing_reported : (o : Option Bool) → reports_nothing o ≡ true → o ≡ none
nothing_reported none h = refl
nothing_reported (some said) h = absurd (cc)

-- The failures that leave open whether the cluster has acted: the request or its reply was lost, or
-- the reply cannot be read; and the two that come from the configuration of the server.
pub data IsUnanswered : ProxmoxError → Type 0 where
  lost : (why : Text) → IsUnanswered (http why)
  unreadable : (why : Text) → IsUnanswered (malformed why)
  misconfigured : (why : Text) → IsUnanswered (config why)
  unknown : (name : Text) → IsUnanswered (unknown_cluster name)

IsUnanswered-is_definitive : {e : ProxmoxError} → IsUnanswered e → is_definitive e ≡ false
unfolding is_definitive
IsUnanswered-is_definitive (lost why) = refl
IsUnanswered-is_definitive (unreadable why) = refl
IsUnanswered-is_definitive (misconfigured why) = refl
IsUnanswered-is_definitive (unknown name) = refl

-- If the request fails because it or its reply is lost, or the reply cannot be read, or the server is
-- misconfigured, then nothing that is written says that the change set has succeeded or failed: there
-- is no receipt, and no state is stored as applied or failed.
pub apply_change_set-indeterminate :
    (server : ProxmoxServer) (world : World) (index : GuestIndex) (caller : Option Caller)
    (cluster : Text) (vmid : ℕ) (change_set_id : Text) (request : Request) (error : ProxmoxError)
    (effect : Effect)
    → Has (sent request) (apply_change_set server world index caller cluster vmid change_set_id).0.1
    → answer_to world request ≡ err error
    → IsUnanswered error
    → Has effect (apply_change_set server world index caller cluster vmid change_set_id).0.1
    → reports effect ≡ none
unfolding after_answer after_failure
apply_change_set-indeterminate server world index caller cluster vmid change_set_id request error
      effect m answered unanswered n =
    let open' = IsUnanswered-is_definitive unanswered in
    let (cleared, i, s) =
      apply_change_set_sent server world index caller cluster vmid change_set_id request m in
    let effects = (apply_change_set server world index caller cluster vmid change_set_id).0.1 in
    let silent : all (λ e. reports_nothing (reports e)) effects ≡ true =
      ground (arith, s.ordered, answered, open') in
    nothing_reported (reports effect) (all-at (λ e. reports_nothing (reports e)) n silent)

-- What was tried has succeeded, or its error is logged.
abbrev pub IsKnown : List Effect → Result (Unit {0}) Text → Type 0
IsKnown effects tried =
    (tried ≡ ok tt) ⊎ ((error : Text) × (tried ≡ err error) × Has (logged error) effects)

-- A call that is settled: the change set is stored as applied, without a handle, and if there is a
-- recorder, a receipt of success is written; a failure of either is logged.
pub record IsSettled (world : World) (change : ChangeSet) (effects : List Effect) : Type 0 where
  pub stores :
      Has (stored (record change { state = ChangeSetState.applied; task_id = none })) effects
  pub stores_known :
      IsKnown effects
        (world.update_change_set (record change { state = ChangeSetState.applied; task_id = none }))
  pub receipts :
      (world.has_evidence ≡ false)
      ⊎ (Has (receipted true []) effects × IsKnown effects (world.result_receipt true []))

IsKnown-log_failure : (tried : Result (Unit {0}) Text) → IsKnown (log_failure tried) tried
IsKnown-log_failure (ok tt) = inl refl
IsKnown-log_failure (err error) = inr (error, refl, here)

IsKnown-append :
    (before effects : List Effect) {tried : Result (Unit {0}) Text}
    → IsKnown effects tried
    → IsKnown (before ++ effects) tried
IsKnown-append before effects (inl done) = inl done
IsKnown-append before effects (inr (error, e, m)) = inr (error, e, Has-append_right before m)

IsKnown-append_left :
    (effects after : List Effect) {tried : Result (Unit {0}) Text}
    → IsKnown effects tried
    → IsKnown (effects ++ after) tried
IsKnown-append_left effects after (inl done) = inl done
IsKnown-append_left effects after (inr (error, e, m)) = inr (error, e, Has-append_left after m)

module _ (world : World) (change : ChangeSet) where
  IsSettled-append :
      (before effects : List Effect)
      → IsSettled world change effects
      → IsSettled world change (before ++ effects)
  IsSettled-append before effects s = record {
    stores = Has-append_right before s.stores;
    stores_known = IsKnown-append before effects s.stores_known;
    receipts = elim s.receipts [
      | inl e ↦ inl e
      | inr (m, known) ↦ inr (Has-append_right before m, IsKnown-append before effects known)
    ];
  }

  -- The last steps of both ways to succeed.
  finish-IsSettled :
      IsSettled world change
        (receipt world true [] ++ store world (settle change ChangeSetState.applied))
  unfolding receipt store settle
  finish-IsSettled =
      let last : ChangeSet = record change { state = ChangeSetState.applied; task_id = none } in
      let stores = stored last ∷ log_failure (world.update_change_set last) in
      let logs = log_failure (world.result_receipt true []) in
      let known =
        IsKnown-append (stored last ∷ []) _ (IsKnown-log_failure (world.update_change_set last)) in
      elim (Bool-cases world.has_evidence) [
        | inr e ↦
            let shape : receipt world true [] ++ store world (settle change ChangeSetState.applied)
                ≡ stores =
              ground (arith, e) in
            rw shape (record { stores = here; stores_known = known; receipts = inl e })
        | inl e ↦
            let shape : receipt world true [] ++ store world (settle change ChangeSetState.applied)
                ≡ (receipted true [] ∷ logs) ++ stores =
              ground (arith, e) in
            rw shape (record {
              stores = there (Has-append_right logs here);
              stores_known = IsKnown-append (receipted true [] ∷ logs) stores known;
              receipts = inr (
                here,
                IsKnown-append_left (receipted true [] ∷ logs) stores (
                    IsKnown-append (receipted true [] ∷ []) logs
                      (IsKnown-log_failure (world.result_receipt true []))),
              );
            })
      ]

  after_task-IsSettled :
      (upid exitstatus : Text)
      → is_ok (after_task world change upid exitstatus).0 ≡ true
      → IsSettled world change (after_task world change upid exitstatus).1
  unfolding after_task
  after_task-IsSettled upid exitstatus h = elim (outcome_cases (classify_exit_status exitstatus)) [
    | inl e ↦ rw (e, after_task) finish-IsSettled
    | inr (text, e) ↦ absurd (ground (arith, e, h))
  ]
    where
      outcome_cases : (o : TaskOutcome) → (o ≡ succeeded) ⊎ ((t : Text) × (o ≡ failed t))
      outcome_cases succeeded = inl refl
      outcome_cases (failed t) = inr (t, refl)

  follow_task-IsSettled :
      (upid : Text)
      → is_ok (follow_task world change upid).0 ≡ true
      → IsSettled world change (follow_task world change upid).1
  unfolding follow_task
  follow_task-IsSettled upid h = elim (Result-cases (parse upid)) [
    | inr (e, e1) ↦ absurd (ground (arith, e1))
    | inl (handle, e1) ↦ elim (Result-cases (world.poll handle.node upid)) [
      | inr (e, e2) ↦ absurd (ground (arith, e1, e2))
      | inl (exitstatus, e2) ↦
          let shape : (follow_task world change upid).1
              ≡ store world (record change { task_id = some upid })
                ++ (after_task world change upid exitstatus).1 =
            ground (arith, e1, e2) in
          rw shape (
            IsSettled-append (store world (record change { task_id = some upid }))
              (after_task world change upid exitstatus).1
              (after_task-IsSettled upid exitstatus (ground (arith, e1, e2))))
    ]
  ]

  after_answer-IsSettled :
      (answered : Result Text ProxmoxError)
      → is_ok (after_answer world change answered).0 ≡ true
      → IsSettled world change (after_answer world change answered).1
  unfolding after_answer
  after_answer-IsSettled (err e) h = absurd (cc)
  after_answer-IsSettled (ok upid) h = elim (Bool-cases (is_empty upid)) [
    | inl e ↦ rw e finish-IsSettled
    | inr e ↦ rw e (follow_task-IsSettled upid (ground (arith, e)))
  ]

-- A claim that was won, a request that was sent, and a call that is settled.
pub record IsFinished (world : World) (effects : List Effect) : Type 0 where
  pub id : Text
  pub device : Text
  pub change : ChangeSet
  pub request : Request
  pub held : world.claim id device ≡ ok change
  pub sends : Has (sent request) effects
  pub settled : IsSettled world change effects

module _ (world : World) (cleared : Cleared) (vmid : ℕ) where
  execute-IsSettled :
      (change : ChangeSet)
      → is_ok (execute world cleared vmid change).0 ≡ true
      → ((request : Request) × Has (sent request) (execute world cleared vmid change).1)
        × IsSettled world change (execute world cleared vmid change).1
  unfolding execute execute_destructive
  execute-IsSettled change h =
      elim (Result-cases
        (choose_request world cleared.action cleared.guest.type cleared.guest.node vmid)) [
          | inr (e, e1) ↦ absurd (ground (arith, e1))
          | inl (q, e1) ↦
              let rest = (after_answer world change (answer_to world q)).1 in
              let shape : (execute world cleared vmid change).1 ≡ (sent q ∷ []) ++ rest =
                ground (arith, e1) in
              let done =
                after_answer-IsSettled world change (answer_to world q) (ground (arith, e1)) in
              rw shape ((q, here), IsSettled-append world change (sent q ∷ []) rest done)
        ]

  commit-IsFinished :
      is_ok (commit world cleared vmid).0 ≡ true → IsFinished world (commit world cleared vmid).1
  unfolding commit intend
  commit-IsFinished h =
      elim (Result-cases (world.claim cleared.change_set.id cleared.change_set.device)) [
        | inr (problem, e) ↦ absurd (ground (arith, e))
        | inl (change, e) ↦
            let made : (commit world cleared vmid).1
                  ≡ opening world change ++ (execute world cleared vmid change).1
                → is_ok (execute world cleared vmid change).0 ≡ true
                → IsFinished world (commit world cleared vmid).1 =
              λ shape succeeds.
                let ((q, m), done) = execute-IsSettled change succeeds in
                record {
                  id = cleared.change_set.id;
                  device = cleared.change_set.device;
                  change = change;
                  request = q;
                  held = e;
                  sends = rw shape (Has-append_right (opening world change) m);
                  settled = rw shape (IsSettled-append world change (opening world change) _ done);
                } in
            elim (Bool-cases world.has_evidence) [
              | inr e1 ↦ made (ground (arith, e, e1)) (ground (arith, e, e1))
              | inl e1 ↦ elim (Result-cases world.apply_intent) [
                | inl (u, e2) ↦ made (ground (arith, e, e1, e2)) (ground (arith, e, e1, e2))
                | inr (problem, e2) ↦ absurd (ground (arith, e, e1, e2))
              ]
            ]
      ]

-- If `apply_change_set` answers with success, then a change set was claimed, a request was sent, the
-- handler has tried to store that change set as applied and without a handle, and, if there is a
-- recorder, to write a receipt of success; each of the two has succeeded, or its error is logged.
pub apply_change_set-settled :
    (server : ProxmoxServer) (world : World) (index : GuestIndex) (caller : Option Caller)
    (cluster : Text) (vmid : ℕ) (change_set_id : Text)
    → is_ok (apply_change_set server world index caller cluster vmid change_set_id).0.0 ≡ true
    → IsFinished world (apply_change_set server world index caller cluster vmid change_set_id).0.1
unfolding apply_change_set
apply_change_set-settled server world index caller cluster vmid change_set_id h =
    elim (Result-cases (check_apply server world index caller cluster vmid change_set_id).0) [
      | inr (problem, e) ↦ absurd (ground (arith, e))
      | inl (cleared, e) ↦
          let same : (apply_change_set server world index caller cluster vmid change_set_id).0.1
              ≡ (commit world cleared vmid).1 =
            ground (arith, e) in
          rw same (commit-IsFinished world cleared vmid (ground (arith, e)))
    ]
