-- ===== src/Apply/Sent.antt =====
-- What is sent to the cluster when a change set is applied, and after what
-- (crates/rust-proxmoxmcp/src/server/mod.rs, `apply_change_set` and `execute_destructive`).
use rustproxmoxmcp.Prelude.{
  ℕ, ◌≡◌, ◌⊎◌, refl, ap, ◌∙◌, inl, inr, Bool, true, false, Option, List, [], ◌∷◌, ◌++◌, any,
  any-of-Has, Has, Has-cons, Has-append, arith, Bool-cases, Result-cases, Result, ok, err,
  if◌then◌else◌,
}
use rustproxmoxmcp.Text.{Text}
use rustproxmoxmcp.Error.{ProxmoxError}
use rustproxmoxmcp.Resolve.{GuestIndex}
use rustproxmoxmcp.Task.{parse}
use rustproxmoxmcp.ChangeSet.{ChangeSet, Request}
use rustproxmoxmcp.Server.{ProxmoxServer, Caller}
use rustproxmoxmcp.Apply.{
  World, Effect, claimed, intended, sent, choose_request, answer_to, execute_destructive,
}
use rustproxmoxmcp.Apply.Checks.{Cleared, check_apply}
use rustproxmoxmcp.Apply.Cleared.{IsCleared, check_apply-IsCleared}
use rustproxmoxmcp.Apply.Commit.{
  receipt, store, after_failure, after_task, follow_task, after_answer, execute, intend, commit,
  apply_change_set,
}

abbrev pub is_sent : Effect → Bool
is_sent (sent request) = true
is_sent _ = false

-- What comes before the request: the claim, and the record of the intent if there is a recorder.
abbrev pub opening : World → ChangeSet → List Effect
opening world change =
    claimed change.id ∷ (if world.has_evidence then intended change.id ∷ [] else [])

not_sent :
    (request : Request) (xs : List Effect) → any is_sent xs ≡ false → Has (sent request) xs → ⊥
not_sent request xs none_sent m = absurd (ground (arith, any-of-Has is_sent m refl))

sent-injective : {r q : Request} → sent r ≡ sent q → r ≡ q
sent-injective h = cc

only_sent :
    (r q : Request) (xs rest : List Effect)
    → any is_sent xs ≡ false
    → any is_sent rest ≡ false
    → Has (sent r) (xs ++ (sent q ∷ rest))
    → r ≡ q
only_sent r q xs rest before after m = elim (Has-append xs (sent q ∷ rest) m) [
  | inl n ↦ absurd (not_sent r xs before n)
  | inr n ↦ elim (Has-cons n) [
    | inl e ↦ sent-injective e
    | inr k ↦ absurd (not_sent r rest after k)
  ]
]

receipt_no_sent :
    (world : World) (done : Bool) (detail : Text) → any is_sent (receipt world done detail) ≡ false
unfolding receipt
receipt_no_sent world done detail = ground arith

module _ (world : World) (change : ChangeSet) where
  after_failure_no_sent : (e : ProxmoxError) → any is_sent (after_failure world change e) ≡ false
  unfolding after_failure receipt
  after_failure_no_sent e = ground arith

  after_task_no_sent :
      (upid exitstatus : Text) → any is_sent (after_task world change upid exitstatus).1 ≡ false
  unfolding after_task receipt store
  after_task_no_sent upid exitstatus = ground arith

  follow_task_no_sent : (upid : Text) → any is_sent (follow_task world change upid).1 ≡ false
  unfolding follow_task store
  follow_task_no_sent upid = elim (Result-cases (parse upid)) [
    | inr (e, e1) ↦ ground (arith, e1)
    | inl (handle, e1) ↦ elim (Result-cases (world.poll handle.node upid)) [
      | inr (e, e2) ↦ ground (arith, e1, e2)
      | inl (exitstatus, e2) ↦ ground (arith, e1, e2, after_task_no_sent upid exitstatus)
    ]
  ]

  pub after_answer_no_sent :
      (answered : Result Text ProxmoxError)
      → any is_sent (after_answer world change answered).1 ≡ false
  unfolding after_answer receipt store
  after_answer_no_sent (err e) = after_failure_no_sent e
  after_answer_no_sent (ok upid) = ground (arith, follow_task_no_sent upid)

module _ (world : World) (cleared : Cleared) (vmid : ℕ) (request : Request) where
  -- The claim was won, the intent was recorded, the request is the one that the action stands for, and
  -- the effects are the claim, the intent, this one request, and what follows its answer.
  pub record IsSentFor (effects : List Effect) : Type 0 where
    pub change : ChangeSet
    pub held : world.claim cleared.change_set.id cleared.change_set.device ≡ ok change
    pub evidenced : (world.has_evidence ≡ false) ⊎ (world.apply_intent ≡ ok tt)
    pub chosen :
        choose_request world cleared.action cleared.guest.type cleared.guest.node vmid ≡ ok request
    pub ordered :
        effects
        ≡ opening world change
          ++ (sent request ∷ (after_answer world change (answer_to world request)).1)
    pub once : any is_sent (after_answer world change (answer_to world request)).1 ≡ false

  execute_sent :
      (change : ChangeSet)
      → Has (sent request) (execute world cleared vmid change).1
      → (choose_request world cleared.action cleared.guest.type cleared.guest.node vmid
          ≡ ok request)
        × ((execute world cleared vmid change).1
            ≡ sent request ∷ (after_answer world change (answer_to world request)).1)
  unfolding execute execute_destructive
  execute_sent change m =
      elim (Result-cases
        (choose_request world cleared.action cleared.guest.type cleared.guest.node vmid)) [
          | inr (e, e1) ↦
              let gone : any is_sent (execute world cleared vmid change).1 ≡ false =
                ground (arith, e1, after_answer_no_sent world change (err e)) in
              absurd (not_sent request (execute world cleared vmid change).1 gone m)
          | inl (q, e1) ↦
              let rest = (after_answer world change (answer_to world q)).1 in
              let shape : (execute world cleared vmid change).1 ≡ sent q ∷ rest =
                ground (arith, e1) in
              let same : request ≡ q =
                only_sent request q [] rest refl
                  (after_answer_no_sent world change (answer_to world q)) (rw shape at m) in
              rw same (e1, shape)
        ]

  sent_after_opening :
      (change : ChangeSet) (effects : List Effect)
      → world.claim cleared.change_set.id cleared.change_set.device ≡ ok change
      → (world.has_evidence ≡ false) ⊎ (world.apply_intent ≡ ok tt)
      → effects ≡ opening world change ++ (execute world cleared vmid change).1
      → Has (sent request) effects
      → IsSentFor effects
  sent_after_opening change effects held evidenced shape m =
      elim (Has-append (opening world change) (execute world cleared vmid change).1
        (rw shape at m)) [
          | inl n ↦ absurd (not_sent request (opening world change) (ground arith) n)
          | inr n ↦
              let (chosen, tail) = execute_sent change n in
              record {
                change = change;
                held = held;
                evidenced = evidenced;
                chosen = chosen;
                ordered = shape ∙ ap (λ rest. opening world change ++ rest) tail;
                once = after_answer_no_sent world change (answer_to world request);
              }
        ]

  intend_sent :
      (change : ChangeSet) (effects : List Effect)
      → world.claim cleared.change_set.id cleared.change_set.device ≡ ok change
      → effects ≡ claimed change.id ∷ (intend world cleared vmid change).1
      → Has (sent request) effects
      → IsSentFor effects
  unfolding intend
  intend_sent change effects held same m = elim (Bool-cases world.has_evidence) [
    | inr e ↦ sent_after_opening change effects held (inl e) (ground (arith, e)) m
    | inl e ↦ elim (Result-cases world.apply_intent) [
      | inl (tt, e1) ↦ sent_after_opening change effects held (inr e1) (ground (arith, e, e1)) m
      | inr (problem, e1) ↦ absurd (not_sent request effects (ground (arith, e, e1)) m)
    ]
  ]

  -- If applying a cleared change set sends a request, then the change set was claimed, the intent was
  -- recorded unless there is no recorder, the request is the one that the action stands for (for an
  -- archive, after its owner was found to be the guest), and the effects are the claim, the intent,
  -- that request, and what follows its answer_to, which sends nothing more.
  pub commit_sent :
      Has (sent request) (commit world cleared vmid).1 → IsSentFor (commit world cleared vmid).1
  unfolding commit
  commit_sent m =
      elim (Result-cases (world.claim cleared.change_set.id cleared.change_set.device)) [
        | inl (change, e) ↦ intend_sent change (commit world cleared vmid).1 e (ground (arith, e)) m
        | inr (problem, e) ↦
            absurd (not_sent request (commit world cleared vmid).1 (ground (arith, e)) m)
      ]

-- If `apply_change_set` sends a request to the cluster, then the checks let the change set pass: it was
-- found for this device, has a preview and is approved; the guest is the one that a reply of the cluster
-- to this call lists under the number asked for, with that number; it is in the scope of the grant,
-- which carries the destructive tier, its fingerprint is the one that was approved, and it is not
-- protected, or excused by lab mode or a waiver for the operation that the record names; the caller may
-- call the tool of the action, which lacks no field. Moreover the change set was claimed, the intent was
-- recorded unless there is no recorder, the request is the one that the action stands for, and no other
-- request is sent.
pub apply_change_set_sent :
    (server : ProxmoxServer) (world : World) (index : GuestIndex) (caller : Option Caller)
    (cluster : Text) (vmid : ℕ) (change_set_id : Text) (request : Request)
    → Has (sent request) (apply_change_set server world index caller cluster vmid change_set_id).0.1
    → (cleared : Cleared) × IsCleared server world caller cluster vmid change_set_id cleared
      × IsSentFor world cleared vmid request
          (apply_change_set server world index caller cluster vmid change_set_id).0.1
unfolding apply_change_set
apply_change_set_sent server world index caller cluster vmid change_set_id request m =
    elim (Result-cases (check_apply server world index caller cluster vmid change_set_id).0) [
      | inr (problem, e) ↦ absurd (
          not_sent request
            (apply_change_set server world index caller cluster vmid change_set_id).0.1
            (ground (arith, e)) m)
      | inl (cleared, e) ↦
          let same : (apply_change_set server world index caller cluster vmid change_set_id).0.1
              ≡ (commit world cleared vmid).1 =
            ground (arith, e) in
          (
            cleared,
            check_apply-IsCleared server world caller cluster vmid index change_set_id cleared e,
            rw same (commit_sent world cleared vmid request (rw same at m)),
          )
    ]
