-- ===== src/Workers/Outcome/Delivery.antt =====
-- Every outcome that reaches the worker is applied once, in order, or still in its batch.
use mathlib.Core.List.{append_assoc, append-nil}
use pushboy.Prelude.{
  ◌<◌, ◌≡◌, refl, sym, ap, ◌∙◌, true, false, List, [], ◌∷◌, ◌++◌, arith, length, length-append,
  Bool-cases, inl, inr, Result, ok, err,
}
use pushboy.Workers.Outcome.{
  begin, OutcomeWorker, OutcomeEvent, delivery, ticker, channel_closed, context_done, Loop, flush,
  take_delivery, outcome_step, outcome_run,
}

-- What the worker is given before the event that stops it.
abbrev pub deliveries : {O : Type 0} → List (OutcomeEvent O) → List O
deliveries [] = []
deliveries (delivery x ∷ es) = x ∷ deliveries es
deliveries (ticker ∷ es) = deliveries es
deliveries (channel_closed ∷ es) = []
deliveries (context_done ∷ es) = []

module _ {S O : Type 0} (o : OutcomeWorker S O) where
  run_stopped :
      (es : List (OutcomeEvent O)) (l : Loop S O) → l.stopped ≡ true → outcome_run o es l ≡ l
  unfolding outcome_run
  run_stopped [] l off = refl
  run_stopped (e ∷ es) l off = ground arith

  run_open :
      (e : OutcomeEvent O) (es : List (OutcomeEvent O)) (l : Loop S O)
      → l.stopped ≡ false
      → outcome_run o (e ∷ es) l ≡ outcome_run o es (outcome_step o e l)
  unfolding outcome_run
  run_open e es l on = ground arith

  abbrev pub IsReliableApply : Type 0
  IsReliableApply = (xs : List O) (s : S) → (o.apply xs s).0 ≡ ok tt

  flush-batch : (l : Loop S O) → IsReliableApply → (flush o l).batch ≡ []
  unfolding flush
  flush-batch l reliable = ground (arith, reliable l.batch l.state)

  stopped-flush : (l : Loop S O) → (flush o l).stopped ≡ l.stopped
  unfolding flush
  stopped-flush l = ground arith

  -- There is room for one more outcome, and nothing is left over when the worker has stopped.
  pub record IsTidy (l : Loop S O) : Type 0 where
    pub room : length l.batch < o.queue_size
    pub rest : l.stopped ≡ true → l.batch ≡ []

  take_delivery-IsTidy :
      (x : O) (l : Loop S O)
      → 0 < o.queue_size
      → IsReliableApply
      → l.stopped ≡ false
      → IsTidy l
      → IsTidy (take_delivery o x l)
  unfolding take_delivery
  take_delivery-IsTidy x l pos reliable on h =
      let m : Loop S O = record l { batch = l.batch ++ x ∷ [] } in
      ground (arith, flush-batch m reliable, stopped-flush m, length-append l.batch (x ∷ []))

  outcome_step-IsTidy :
      (e : OutcomeEvent O) (l : Loop S O)
      → 0 < o.queue_size
      → IsReliableApply
      → l.stopped ≡ false
      → IsTidy l
      → IsTidy (outcome_step o e l)
  unfolding outcome_step
  outcome_step-IsTidy (delivery x) l pos reliable on h = take_delivery-IsTidy x l pos reliable on h
  outcome_step-IsTidy ticker l pos reliable on h = ground (arith, flush-batch l reliable)
  outcome_step-IsTidy channel_closed l pos reliable on h = ground (arith, flush-batch l reliable)
  outcome_step-IsTidy context_done l pos reliable on h = ground (arith, flush-batch l reliable)

  outcome_run-IsTidy :
      (es : List (OutcomeEvent O)) (l : Loop S O)
      → 0 < o.queue_size
      → IsReliableApply
      → IsTidy l
      → IsTidy (outcome_run o es l)
  unfolding outcome_run
  outcome_run-IsTidy [] l pos reliable h = h
  outcome_run-IsTidy (e ∷ es) l pos reliable h = elim (Bool-cases l.stopped) [
    | inl off ↦ simp (off, outcome_run) h
    | inr on ↦
        simp (on, outcome_run)
          (outcome_run-IsTidy es (outcome_step o e l) pos reliable
            (outcome_step-IsTidy e l pos reliable on h))
  ]

module _ {S O : Type 0} (o : OutcomeWorker S O) where
  abbrev logged : List O → List O → Result (Unit {0}) × S → Result (Unit {0}) × (S × List O)
  logged xs log (ok _, s) = (ok tt, (s, log ++ xs))
  logged xs log (err e, s) = (err e, (s, log))

  -- The same worker over an `apply` that writes down, in the state it is called with, the batches it
  -- has applied: a second call, or a state that is dropped, shows in what it has written.
  abbrev pub recording : OutcomeWorker (S × List O) O
  recording = record {
    apply = λ xs s. logged xs s.1 (o.apply xs s.0);
    queue_size = o.queue_size;
    queue_flush_time = o.queue_flush_time;
  }

  abbrev pub forget : Loop (S × List O) O → Loop S O
  forget l = record { batch = l.batch; state = l.state.0; stopped = l.stopped }

  -- What has been applied, then what is in the batch.
  abbrev gathered : Loop (S × List O) O → List O
  gathered l = l.state.1 ++ l.batch

  flush-forget : (l : Loop (S × List O) O) → forget (flush recording l) ≡ flush o (forget l)
  unfolding flush
  flush-forget l = ground arith

  flush-gathered : (l : Loop (S × List O) O) → gathered (flush recording l) ≡ gathered l
  unfolding flush
  flush-gathered l = ground (arith, append-nil (l.state.1 ++ l.batch))

  outcome_step-forget :
      (e : OutcomeEvent O) (l : Loop (S × List O) O)
      → forget (outcome_step recording e l) ≡ outcome_step o e (forget l)
  unfolding outcome_step
  outcome_step-forget (delivery x) l =
      ground (arith, flush-forget (record l { batch = l.batch ++ x ∷ [] }))
  outcome_step-forget ticker l = flush-forget l
  outcome_step-forget channel_closed l = ground (arith, flush-forget l)
  outcome_step-forget context_done l = ground (arith, flush-forget l)

  outcome_run-forget :
      (es : List (OutcomeEvent O)) (l : Loop (S × List O) O)
      → forget (outcome_run recording es l) ≡ outcome_run o es (forget l)
  unfolding outcome_run
  outcome_run-forget [] l = refl
  outcome_run-forget (e ∷ es) l = elim (Bool-cases l.stopped) [
    | inl off ↦
        ap forget (run_stopped recording (e ∷ es) l off)
        ∙ sym (run_stopped o (e ∷ es) (forget l) off)
    | inr on ↦
        ap forget (run_open recording e es l on)
        ∙ outcome_run-forget es (outcome_step recording e l)
        ∙ ap (outcome_run o es) (outcome_step-forget e l)
        ∙ sym (run_open o e es (forget l) on)
  ]

  take_delivery-gathered :
      (x : O) (l : Loop (S × List O) O)
      → gathered (take_delivery recording x l) ≡ gathered l ++ x ∷ []
  unfolding take_delivery
  take_delivery-gathered x l = ground (
    arith,
    append_assoc l.state.1 l.batch (x ∷ []),
    flush-gathered (record l { batch = l.batch ++ x ∷ [] }),
  )

  take_delivery-stopped :
      (x : O) (l : Loop (S × List O) O) → (take_delivery recording x l).stopped ≡ l.stopped
  unfolding take_delivery
  take_delivery-stopped x l =
      ground (arith, stopped-flush recording (record l { batch = l.batch ++ x ∷ [] }))

  ends_here :
      (es : List (OutcomeEvent O)) (l : Loop (S × List O) O)
      → gathered (outcome_run recording es (record (flush recording l) { stopped = true }))
        ≡ gathered l ++ []
  ends_here es l =
      ap gathered (run_stopped recording es (record (flush recording l) { stopped = true }) refl)
      ∙ flush-gathered l
      ∙ sym (append-nil (gathered l))

  run_gathered :
      (es : List (OutcomeEvent O)) (l : Loop (S × List O) O)
      → l.stopped ≡ false
      → gathered (outcome_run recording es l) ≡ gathered l ++ deliveries es
  unfolding outcome_run outcome_step
  run_gathered [] l on = sym (append-nil (gathered l))
  run_gathered (delivery x ∷ es) l on =
      ap gathered (run_open recording (delivery x) es l on)
      ∙ run_gathered es (take_delivery recording x l) (take_delivery-stopped x l ∙ on)
      ∙ ap (λ (xs : List O). xs ++ deliveries es) (take_delivery-gathered x l)
      ∙ append_assoc (gathered l) (x ∷ []) (deliveries es)
  run_gathered (ticker ∷ es) l on =
      ap gathered (run_open recording ticker es l on)
      ∙ run_gathered es (flush recording l) (stopped-flush recording l ∙ on)
      ∙ ap (λ (xs : List O). xs ++ deliveries es) (flush-gathered l)
  run_gathered (channel_closed ∷ es) l on =
      ap gathered (run_open recording channel_closed es l on) ∙ ends_here es l
  run_gathered (context_done ∷ es) l on =
      ap gathered (run_open recording context_done es l on) ∙ ends_here es l

  -- Whatever calls of `apply` fail: over an `apply` that writes its successful calls down, what it has
  -- written followed by the batch is what was delivered before the worker stopped, in order and each
  -- once; and the worker over `apply` itself has the same batch and the same state.
  pub outcome_run_once :
      (es : List (OutcomeEvent O)) (s : S)
      → let r = outcome_run recording es (begin (s, [])) in
        (r.state.1 ++ r.batch ≡ deliveries es) × (forget r ≡ outcome_run o es (begin s))
  outcome_run_once es s =
      (run_gathered es (begin (s, [])) refl, outcome_run-forget es (begin (s, [])))

  -- While `apply` succeeds, the batch stays below the queue size between two events; and when the
  -- worker that began with an empty batch has stopped, its batch is empty, and an `apply` that writes
  -- its calls down has written all that was delivered before the stop, in order and each once.
  pub outcome_run_complete :
      (es : List (OutcomeEvent O)) (s : S)
      → 0 < o.queue_size
      → IsReliableApply o
      → (length (outcome_run o es (begin s)).batch < o.queue_size)
        × ((outcome_run o es (begin s)).stopped ≡ true
            → ((outcome_run o es (begin s)).batch ≡ [])
              × ((outcome_run recording es (begin (s, []))).state.1 ≡ deliveries es))
  outcome_run_complete es s pos reliable =
      let tidy =
        outcome_run-IsTidy o es (begin s) pos reliable
          (record { room = pos; rest = λ off. refl }) in
      let r = outcome_run recording es (begin (s, [])) in
      let (all, same) = outcome_run_once es s in
      (
        tidy.room,
        λ off.
            let none_left = ap (λ (l : Loop S O). l.batch) same ∙ tidy.rest off in
            (tidy.rest off, sym (append-nil r.state.1) ∙ ap (◌++◌ r.state.1) (sym none_left) ∙ all),
      )
