-- ===== src/Workers/Dispatch/Recorded.antt =====
-- What a sender leaves in the outcome pipeline.
use mathlib.Core.List.{append-nil}
use pushboy.Prelude.{
  ℕ, String, ◌≡◌, refl, ◌↔◌, Bool, true, false, Option, none, some, List, [], ◌∷◌, ◌++◌, Error,
  is_error, at_canceled, Result, ok, err, attempt, ◌>>=◌, ◌>>◌, continue, arith, if◌then◌else◌,
}
use pushboy.Pipeline.Outbox.{Outbox}
use pushboy.Model.Push.{Platform}
use pushboy.Model.Task.{success, SendTask, SendOutcome, LaSendTask, LaSendOutcome}
use pushboy.Workers.Dispatch.{
  Dispatcher, push_to_dlq, dispatch_push_task, dispatch_la_task, push_receipt, la_receipt, returned,
  receipt, sent_push, push_error, sent_la, la_error,
}

-- The outcome is dropped where the first call is cancelled, or both calls fail.
abbrev pub is_dropped : List (Option Error) → Bool
is_dropped [] = false
is_dropped (none ∷ later) = false
is_dropped (some e ∷ []) = is_error at_canceled e
is_dropped (some e ∷ none ∷ later) = is_error at_canceled e
is_dropped (some e ∷ some f ∷ later) = true

module _ {O : Type 0} where
  abbrev pub kept : O → List (Option Error) → List O
  kept o later = if is_dropped later then [] else o ∷ []

  push_to_dlq_lem :
      (o : O) (taken : List O) (answers : List (Option Error))
      → let r = push_to_dlq o (record { taken = taken; answers = answers }) in
        (r.0 ≡ ok tt) × (r.1.taken ≡ taken ++ kept o answers)
  unfolding push_to_dlq attempt
  push_to_dlq_lem o taken [] = (refl, refl)
  push_to_dlq_lem o taken (none ∷ later) = (refl, refl)
  push_to_dlq_lem o taken (some e ∷ []) = ground (arith, append-nil taken)
  push_to_dlq_lem o taken (some e ∷ none ∷ later) = ground (arith, append-nil taken)
  push_to_dlq_lem o taken (some e ∷ some f ∷ later) = ground (arith, append-nil taken)

  recorded :
      (o : O) (f : Error → Error) (x : Result (Unit {0})) (taken : List O)
      (answers : List (Option Error))
      → let r = (push_to_dlq o >> returned f x) (record { taken = taken; answers = answers }) in
        (r.1.taken ≡ taken ++ kept o answers) × (x ≡ ok tt ↔ r.0 ≡ ok tt)
  unfolding ◌>>=◌
  recorded o f x taken answers =
      after_call (push_to_dlq o (record { taken = taken; answers = answers })) x
        (push_to_dlq_lem o taken answers)
    where
      after_call :
          (r : Result (Unit {0}) × Outbox O) (x : Result (Unit {0}))
          → (r.0 ≡ ok tt) × (r.1.taken ≡ taken ++ kept o answers)
          → ((continue (λ _. returned f x) r).1.taken ≡ taken ++ kept o answers)
            × (x ≡ ok tt ↔ (continue (λ _. returned f x) r).0 ≡ ok tt)
      after_call (ok _, b) (ok _) h = (h.1, ((λ _. refl), (λ _. refl)))
      after_call (ok _, b) (err e) h = (h.1, ((λ k. cc), (λ k. cc)))
      after_call (err e, b) x h = cc

receipt_lem :
    (render : Error → String) (id : String) (now : ℕ) (job_id token_id : String)
    (x : Result (Unit {0}))
    → let c = receipt render id now job_id token_id x in
      (c.job_id ≡ job_id) × (c.token_id ≡ token_id) × (c.status ≡ success ↔ x ≡ ok tt)
receipt_lem render id now job_id token_id (ok _) = (refl, refl, ((λ _. refl), (λ _. refl)))
receipt_lem render id now job_id token_id (err e) = (refl, refl, ((λ k. cc), (λ k. cc)))

module _ (render : Error → String) (dispatchers : Platform → Option Dispatcher) (id : String)
    (now : ℕ) where
  -- Whatever the provider answers, a sender submits one outcome of its task, with the job and the
  -- token of the task, and it is lost only if the first submission is cancelled or both fail; the
  -- receipt says success exactly if the sender returns no error.
  pub dispatch_push_task_lem :
      (task : SendTask) (taken : List SendOutcome) (answers : List (Option Error))
      → let r =
          dispatch_push_task render dispatchers id now task
            (record { taken = taken; answers = answers }) in
        let receipt = push_receipt render dispatchers id now task in
        (r.1.taken ≡ taken ++ kept (record { task = task; receipt = receipt }) answers)
        × (receipt.job_id ≡ task.job.id)
        × (receipt.token_id ≡ task.target.token_id)
        × (receipt.status ≡ success ↔ r.0 ≡ ok tt)
  unfolding dispatch_push_task ◌>>=◌
  dispatch_push_task_lem task taken answers =
      let x = sent_push render dispatchers id now task (dispatchers task.target.platform) in
      let c = receipt_lem render id now task.job.id task.target.token_id x in
      let d =
        recorded _ (push_error render dispatchers id now (dispatchers task.target.platform)) x taken
          answers in
      (d.0, c.0, c.1, ((λ h. d.1.0 (c.2.0 h)), (λ h. c.2.1 (d.1.1 h))))

  -- A sender of the live activity lane does the same, with the dispatch as the job: it
  -- submits one outcome of its task, with the token of the task, and it is lost only if the first
  -- submission is cancelled or both fail; the receipt says success exactly if the sender returns no
  -- error.
  pub dispatch_la_task_lem :
      (task : LaSendTask) (taken : List LaSendOutcome) (answers : List (Option Error))
      → let r =
          dispatch_la_task render dispatchers id now task
            (record { taken = taken; answers = answers }) in
        let receipt = la_receipt render dispatchers id now task in
        (r.1.taken ≡ taken ++ kept (record { task = task; receipt = receipt }) answers)
        × (receipt.job_id ≡ task.la_job.dispatch_id)
        × (receipt.token_id ≡ task.target.token_id)
        × (receipt.status ≡ success ↔ r.0 ≡ ok tt)
  unfolding dispatch_la_task ◌>>=◌
  dispatch_la_task_lem task taken answers =
      let x = sent_la render dispatchers id now task (dispatchers task.target.platform) in
      let c = receipt_lem render id now task.la_job.dispatch_id task.target.token_id x in
      let d =
        recorded _ (la_error render dispatchers id now (dispatchers task.target.platform)) x taken
          answers in
      (d.0, c.0, c.1, ((λ h. d.1.0 (c.2.0 h)), (λ h. c.2.1 (d.1.1 h))))
