-- ===== src/Workers/Loops/Drained.antt =====
-- A sender at a pipeline that has been closed.
use mathlib.Core.List.{append-nil, append_assoc}
use pushboy.Prelude.{
  ℕ, String, ◌≡◌, refl, ap, sym, subst, pure, raise, ◌∙◌, Bool, true, false, ◌||◌, ◌&&◌, arith,
  is_error, inl, inr, Bool-cases, if◌then◌else◌, Option, List, [], ◌∷◌, ◌++◌, map, Error, closed,
  Result, ok, err, attempt, ◌>>=◌,
}
use pushboy.Model.Push.{Platform}
use pushboy.Model.Task.{SendTask, SendOutcome}
use pushboy.Pipeline.{
  MemoryPipeline, PipelineEvent, submit, send_case, done_case, context_case, meet, receive_done,
  receive_context, Reply, received, no_item, taken, pipeline_step, pipeline_run, outputs,
}
use pushboy.Pipeline.Order.{IsShut, sent-IsShut, pipeline_fifo}
use pushboy.Pipeline.Outbox.{Outbox}
use pushboy.Workers.Dispatch.{Dispatcher, dispatch_push_task, push_receipt, returned}
use pushboy.Workers.Loops.{SenderWorker, sender_start, stops}

module _ {T : Type 0} where
  abbrev result_of : Reply T → List (Result T)
  result_of (received x) = ok x ∷ []
  result_of (no_item e) = err e ∷ []
  result_of _ = []

  -- What the calls of `Receive` return over a history of a pipeline.
  abbrev pub receive_results : List (PipelineEvent T) → MemoryPipeline T → List (Result T)
  receive_results [] p = []
  receive_results (e ∷ es) p =
      result_of (pipeline_step e p).0 ++ receive_results es (pipeline_step e p).1

  -- As many calls as there are items, and one more.
  abbrev pub calls : List T → List (PipelineEvent T)
  calls [] = receive_done ∷ []
  calls (x ∷ xs) = receive_done ∷ calls xs

  -- The calls of `Receive` return an error once the loop is to end.
  abbrev is_end : Reply T → Bool
  is_end (no_item e) = true
  is_end _ = false

  -- The events up to the call of `Receive` at which a sender stops.
  abbrev pub until_stop : List (PipelineEvent T) → MemoryPipeline T → List (PipelineEvent T)
  until_stop [] p = []
  until_stop (e ∷ es) p =
      let rest = until_stop es (pipeline_step e p).1 in
      if is_end (pipeline_step e p).0 then e ∷ [] else e ∷ rest

  abbrev pub has_stopped : List (PipelineEvent T) → MemoryPipeline T → Bool
  has_stopped [] p = false
  has_stopped (e ∷ es) p = is_end (pipeline_step e p).0 || has_stopped es (pipeline_step e p).1

  -- No call of `Receive` finds its context ended.
  abbrev lasting : PipelineEvent T → Bool
  lasting receive_context = false
  lasting _ = true

  abbrev pub all_lasting : List (PipelineEvent T) → Bool
  all_lasting [] = true
  all_lasting (e ∷ es) = lasting e && all_lasting es

  -- The items before the error at which a sender stops.
  abbrev served : List (Result T) → List T
  served [] = []
  served (ok x ∷ rs) = x ∷ served rs
  served (err e ∷ rs) = let rest = served rs in if stops e then [] else rest

  ends_closed :
      (e : PipelineEvent T) (p : MemoryPipeline T)
      → is_end (pipeline_step e p).0 ≡ true
      → (pipeline_step e p).0 ≡ no_item closed
  unfolding pipeline_step
  ends_closed (submit x) p h = absurd (ground arith)
  ends_closed (send_case i) p h = absurd (ground arith)
  ends_closed (done_case i) p h = absurd (ground arith)
  ends_closed (context_case x i) p h = absurd (ground arith)
  ends_closed (meet i) p h = absurd (ground arith)
  ends_closed _ p h = ground arith

  served_goes :
      (r : Reply T) (rs : List (Result T))
      → is_end r ≡ false
      → served (result_of r ++ rs) ≡ taken r ++ served rs
  served_goes (received x) rs h = refl
  served_goes (no_item e) rs h = absurd (ground arith)
  served_goes _ rs h = refl

  served_until :
      (es : List (PipelineEvent T)) (p : MemoryPipeline T)
      → served (receive_results es p) ≡ outputs (until_stop es p) p
  unfolding is_error
  served_until [] p = refl
  served_until (e ∷ es) p = elim (Bool-cases (is_end (pipeline_step e p).0)) [
    | inl h ↦ rw (ends_closed e p h) (ap (λ (r : Reply T). taken r ++ []) (sym (ends_closed e p h)))
    | inr h ↦
        served_goes (pipeline_step e p).0 (receive_results es (pipeline_step e p).1) h
        ∙ ap (◌++◌ (taken (pipeline_step e p).0)) (served_until es (pipeline_step e p).1)
        ∙ rw h refl
  ]

  -- Where its context lasts, a `Receive` gives an error only when the buffer is empty.
  ends_empty :
      (e : PipelineEvent T) (p : MemoryPipeline T)
      → lasting e ≡ true
      → is_end (pipeline_step e p).0 ≡ true
      → (pipeline_step e p).1.channel ≡ []
  unfolding pipeline_step
  ends_empty (submit x) p l h = absurd (ground arith)
  ends_empty (send_case i) p l h = absurd (ground arith)
  ends_empty (done_case i) p l h = absurd (ground arith)
  ends_empty (context_case x i) p l h = absurd (ground arith)
  ends_empty (meet i) p l h = absurd (ground arith)
  ends_empty _ p l h = ground arith

  stopped_empty :
      (es : List (PipelineEvent T)) (p : MemoryPipeline T)
      → all_lasting es ≡ true
      → has_stopped es p ≡ true
      → (pipeline_run (until_stop es p) p).channel ≡ []
  unfolding pipeline_run
  stopped_empty [] p l h = absurd (ground arith)
  stopped_empty (e ∷ es) p l h = elim (Bool-cases (is_end (pipeline_step e p).0)) [
    | inl k ↦ rw k (ends_empty e p (ground arith) k)
    | inr k ↦ rw k (stopped_empty es (pipeline_step e p).1 (ground arith) (ground arith))
  ]

  stops_closed :
      (xs waiting : List T) (capacity : ℕ)
      → (all_lasting (calls xs) ≡ true)
        × (has_stopped
              (calls xs)
              (record { capacity = capacity; channel = xs; done = true; waiting = waiting })
            ≡ true)
  unfolding pipeline_step
  stops_closed [] waiting capacity = (refl, refl)
  stops_closed (x ∷ xs) waiting capacity = stops_closed xs waiting capacity

  stops_shut : (p : MemoryPipeline T) → IsShut p → has_stopped (calls p.channel) p ≡ true
  stops_shut p h =
      subst (λ (d : Bool). has_stopped (calls p.channel) (record p { done = d }) ≡ true)
        (sym h.is_done) (stops_closed p.channel p.waiting p.capacity).1

module _ (render : Error → String) (dispatchers : Platform → Option Dispatcher)
    (draw : SendTask → String × ℕ) where
  -- A sender of the push lane; the id and the time of a receipt are drawn for its task.
  abbrev pub push_sender : SenderWorker (Outbox SendOutcome) SendTask
  push_sender = record {
    dispatch = λ task. dispatch_push_task render dispatchers (draw task).0 (draw task).1 task;
  }

  abbrev pub outcome_of : SendTask → SendOutcome
  outcome_of task = record {
    task = task;
    receipt = push_receipt render dispatchers (draw task).0 (draw task).1 task;
  }

  returned_state :
      (f : Error → Error) (x : Result (Unit {0})) (b : Outbox SendOutcome) → (returned f x b).1 ≡ b
  unfolding pure raise
  returned_state f (ok _) b = refl
  returned_state f (err e) b = refl

  dispatched :
      (task : SendTask) (taken : List SendOutcome)
      → (dispatch_push_task render dispatchers
          (draw task).0
          (draw task).1
          task
          (record { taken = taken; answers = [] })).1
        ≡ record { taken = taken ++ outcome_of task ∷ []; answers = [] }
  unfolding dispatch_push_task ◌>>=◌ attempt
  dispatched task taken = returned_state _ _ _

  sends_served :
      (rs : List (Result SendTask)) (taken : List SendOutcome)
      → sender_start push_sender rs (record { taken = taken; answers = [] })
        ≡ record { taken = taken ++ map outcome_of (served rs); answers = [] }
  unfolding sender_start
  sends_served [] taken =
      ap (λ (xs : List SendOutcome). record { taken = xs; answers = [] }) (sym (append-nil taken))
  sends_served (ok t ∷ rs) taken =
      ap (sender_start push_sender rs) (dispatched t taken)
      ∙ sends_served rs (taken ++ outcome_of t ∷ [])
      ∙ ap (λ (xs : List SendOutcome). record { taken = xs; answers = [] })
          (append_assoc taken (outcome_of t ∷ []) (map outcome_of (served rs)))
  sends_served (err e ∷ rs) taken = elim (Bool-cases (stops e)) [
    | inl h ↦ rw h (
        ap (λ (xs : List SendOutcome). record { taken = xs; answers = [] })
          (sym (append-nil taken)))
    | inr h ↦ rw h (sends_served rs taken)
  ]

  -- A sender at a task pipeline that has been closed, with no `Submit` under way, where the outcome
  -- pipeline takes what it is given. Whatever calls of `Receive` it makes, and whether or not they find
  -- their context ended, it submits one outcome, in order, of each task that it received before it
  -- stopped, whatever the provider answers; and these tasks with those that are left in the buffer then
  -- are the tasks that were buffered. If it has stopped and no call found its context ended, none is
  -- left. And it stops if it calls once more than there are tasks.
  pub sender_drains :
      (p : MemoryPipeline SendTask) (taken : List SendOutcome)
      → IsShut p
      → ((es : List (PipelineEvent SendTask))
          → let sent_tasks = outputs (until_stop es p) p in
            (sender_start push_sender
                (receive_results es p)
                (record { taken = taken; answers = [] })
              ≡ record { taken = taken ++ map outcome_of sent_tasks; answers = [] })
            × (sent_tasks ++ (pipeline_run (until_stop es p) p).channel ≡ p.channel)
            × (all_lasting es ≡ true → has_stopped es p ≡ true → sent_tasks ≡ p.channel))
        × (all_lasting (calls p.channel) ≡ true)
        × (has_stopped (calls p.channel) p ≡ true)
  sender_drains p taken h = (
    λ es.
        let whole : outputs (until_stop es p) p ++ (pipeline_run (until_stop es p) p).channel
            ≡ p.channel =
          pipeline_fifo (until_stop es p) p
          ∙ ap (◌++◌ p.channel) (sent-IsShut (until_stop es p) p h)
          ∙ append-nil p.channel in
        (
          sends_served (receive_results es p) taken
              ∙ ap
                  (λ (xs : List SendTask). record {
                    taken = taken ++ map outcome_of xs;
                    answers = [];
                  })
                  (served_until es p),
          whole,
          λ l k.
              sym (append-nil (outputs (until_stop es p) p))
              ∙ ap (◌++◌ (outputs (until_stop es p) p)) (sym (stopped_empty es p l k))
              ∙ whole,
        ),
    (stops_closed p.channel p.waiting p.capacity).0,
    stops_shut p h,
  )
