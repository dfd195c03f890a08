-- ===== src/Apply/Receipts.antt =====
-- What is receipted and stored of a change set that is applied, against what the call answers
-- (crates/rust-proxmoxmcp/src/server/mod.rs, `apply_change_set`).
use rustproxmoxmcp.Prelude.{
  ℕ, ◌≡◌, ◌⊎◌, refl, sym, inl, inr, Bool, true, false, not, Option, none, some, all, all-at, Has,
  arith, Bool-cases, Result-cases, Result, ok, err, is_ok,
}
use rustproxmoxmcp.Text.{Text}
use rustproxmoxmcp.Error.{ProxmoxError}
use rustproxmoxmcp.Resolve.{GuestIndex}
use rustproxmoxmcp.Task.{parse, classify_exit_status, succeeded, failed, TaskOutcome}
use rustproxmoxmcp.ChangeSet.{ChangeSet, ChangeSetState}
use rustproxmoxmcp.Server.{ProxmoxServer, Caller}
use rustproxmoxmcp.Apply.{
  World, Effect, receipted, stored, choose_request, answer_to, execute_destructive,
}
use rustproxmoxmcp.Apply.Checks.{Cleared, check_apply}
use rustproxmoxmcp.Apply.Commit.{
  receipt, store, settle, after_failure, after_task, follow_task, after_answer, execute, intend,
  commit, apply_change_set,
}

-- What a stored state says of the outcome.
abbrev pub says : ChangeSetState → Option Bool
says ChangeSetState.applied = some true
says ChangeSetState.failed = some false
says _ = none

-- What an effect says of the outcome.
abbrev pub reports : Effect → Option Bool
reports (receipted done detail) = some done
reports (stored change) = says change.state
reports _ = none

abbrev agrees : Bool → Option Bool → Bool
agrees done none = true
agrees true (some said) = said
agrees false (some said) = not said

agrees_same : (done said : Bool) → agrees done (some said) ≡ true → done ≡ said
agrees_same true said h = ground arith
agrees_same false said h = ground arith

module _ (world : World) (change : ChangeSet)
    (applying : change.state ≡ ChangeSetState.applying) where
  after_failure-honest :
      (e : ProxmoxError) → all (λ f. agrees false (reports f)) (after_failure world change e) ≡ true
  unfolding after_failure receipt
  after_failure-honest e = ground arith

  after_task-honest :
      (upid exitstatus : Text)
      → all
          (λ e. agrees (is_ok (after_task world change upid exitstatus).0) (reports e))
          (after_task world change upid exitstatus).1
        ≡ true
  unfolding after_task receipt store settle
  after_task-honest upid exitstatus = elim (outcome_cases (classify_exit_status exitstatus)) [
    | inl e ↦ ground (arith, e)
    | inr (text, e) ↦ ground (arith, e)
  ]
    where
      outcome_cases : (o : TaskOutcome) → (o ≡ succeeded) ⊎ ((t : Text) × (o ≡ failed t))
      outcome_cases succeeded = inl refl
      outcome_cases (failed t) = inr (t, refl)

  follow_task-honest :
      (upid : Text)
      → all
          (λ e. agrees (is_ok (follow_task world change upid).0) (reports e))
          (follow_task world change upid).1
        ≡ true
  unfolding follow_task store
  follow_task-honest upid = elim (Result-cases (parse upid)) [
    | inr (e, e1) ↦ ground (arith, e1)
    | inl (handle, e1) ↦ elim (Result-cases (world.poll handle.node upid)) [
      | inr (e, e2) ↦ ground (arith, e1, e2, applying)
      | inl (exitstatus, e2) ↦ ground (arith, e1, e2, applying, after_task-honest upid exitstatus)
    ]
  ]

  after_answer-honest :
      (answered : Result Text ProxmoxError)
      → all
          (λ e. agrees (is_ok (after_answer world change answered).0) (reports e))
          (after_answer world change answered).1
        ≡ true
  unfolding after_answer receipt store settle
  after_answer-honest (err e) = after_failure-honest e
  after_answer-honest (ok upid) = ground (arith, follow_task-honest upid)

module _ (world : World) (cleared : Cleared) (vmid : ℕ)
    (claims_applying : (id device : Text) (change : ChangeSet)
      → world.claim id device ≡ ok change
      → change.state ≡ ChangeSetState.applying) where
  execute-honest :
      (change : ChangeSet)
      → change.state ≡ ChangeSetState.applying
      → all
          (λ e. agrees (is_ok (execute world cleared vmid change).0) (reports e))
          (execute world cleared vmid change).1
        ≡ true
  unfolding execute execute_destructive
  execute-honest change applying =
      elim (Result-cases
        (choose_request world cleared.action cleared.guest.type cleared.guest.node vmid)) [
          | inr (e, e1) ↦ ground (arith, e1, after_answer-honest world change applying (err e))
          | inl (q, e1) ↦
              ground (arith, e1, after_answer-honest world change applying (answer_to world q))
        ]

  commit-honest :
      all
        (λ e. agrees (is_ok (commit world cleared vmid).0) (reports e))
        (commit world cleared vmid).1
      ≡ true
  unfolding commit intend
  commit-honest =
      elim (Result-cases (world.claim cleared.change_set.id cleared.change_set.device)) [
        | inr (problem, e) ↦ ground (arith, e)
        | inl (change, e) ↦
            let honest =
              execute-honest change
                (claims_applying cleared.change_set.id cleared.change_set.device change e) in
            elim (Bool-cases world.has_evidence) [
              | inr e1 ↦ ground (arith, e, e1, honest)
              | inl e1 ↦ elim (Result-cases world.apply_intent) [
                | inl (u, e2) ↦ ground (arith, e, e1, e2, honest)
                | inr (problem, e2) ↦ ground (arith, e, e1, e2)
              ]
            ]
      ]

-- If a claim leaves a change set in the state applying, then whatever the call writes of the outcome
-- agrees with what it answers: a receipt of success, and a change set stored as applied, only if it
-- answers with success; a receipt of failure, and a change set stored as failed, only with an error.
pub apply_change_set-reports :
    (server : ProxmoxServer) (world : World) (index : GuestIndex) (caller : Option Caller)
    (cluster : Text) (vmid : ℕ) (change_set_id : Text) (effect : Effect) (said : Bool)
    → ((id device : Text) (change : ChangeSet)
        → world.claim id device ≡ ok change
        → change.state ≡ ChangeSetState.applying)
    → Has effect (apply_change_set server world index caller cluster vmid change_set_id).0.1
    → reports effect ≡ some said
    → is_ok (apply_change_set server world index caller cluster vmid change_set_id).0.0 ≡ said
unfolding apply_change_set
apply_change_set-reports server world index caller cluster vmid change_set_id effect said
      claims_applying m reported =
    let result = (apply_change_set server world index caller cluster vmid change_set_id).0 in
    let honest : all (λ e. agrees (is_ok result.0) (reports e)) result.1 ≡ true =
      elim (Result-cases (check_apply server world index caller cluster vmid change_set_id).0) [
        | inr (problem, e) ↦ ground (arith, e)
        | inl (cleared, e) ↦ ground (arith, e, commit-honest world cleared vmid claims_applying)
      ] in
    agrees_same (is_ok result.0) said
      (rw (sym reported) (all-at (λ e. agrees (is_ok result.0) (reports e)) m honest))
