-- ===== src/Pipeline/Order.antt =====
-- The pipeline loses nothing that it has accepted, and drains once it is closed.
use mathlib.Core.List.{append_assoc, append-nil}
use pushboy.Prelude.{
  ℕ, zero, suc, some, ◌≡◌, refl, sym, ap, ◌∙◌, true, List, [], ◌∷◌, ◌++◌, arith, Option-cases, map,
  closed, inl, inr,
}
use pushboy.Pipeline.{
  MemoryPipeline, PipelineEvent, submit, send_case, receive_done, meet, pipeline_step, pipeline_run,
  put_in, taken, sent, outputs, pick, item_at, no_item, received,
}

module _ {T : Type 0} where
  pick-item_at :
      (i : ℕ) (xs : List T) (x : T) (rest : List T)
      → pick i xs ≡ some (x, rest)
      → item_at i xs ≡ x ∷ []
  pick-item_at zero (y ∷ ys) x rest h = ground arith
  pick-item_at (suc i) (y ∷ ys) x rest h = elim (Option-cases (pick i ys)) [
    | inl o ↦ absurd (ground (arith, o, h))
    | inr ((y', ys'), o) ↦ pick-item_at i ys y' ys' o ∙ ground (arith, o, h)
  ]
  pick-item_at i [] x rest h = absurd (ground arith)

  -- One event appends what it sends and removes what it takes out.
  step_order :
      (e : PipelineEvent T) (p : MemoryPipeline T)
      → p.channel ++ put_in e (pipeline_step e p).0 p.waiting
        ≡ taken (pipeline_step e p).0 ++ (pipeline_step e p).1.channel
  unfolding pipeline_step
  step_order (submit x) p = ground (arith, append-nil p.channel)
  step_order (send_case i) p = elim (Option-cases (pick i p.waiting)) [
    | inl o ↦ rw o (append-nil p.channel)
    | inr ((x, rest), o) ↦
        rw o (ground (arith, append-nil p.channel, pick-item_at i p.waiting x rest o))
  ]
  step_order (meet i) p = elim (Option-cases (pick i p.waiting)) [
    | inl o ↦ rw o (ground (arith, append-nil p.channel))
    | inr ((x, rest), o) ↦
        rw o (ground (arith, append-nil p.channel, pick-item_at i p.waiting x rest o))
  ]
  step_order _ p = ground (arith, append-nil p.channel)

  -- Whatever the runtime chooses, what came out and what is still buffered is, in order, what was
  -- buffered at first and then the items of the calls of `Submit` that have returned with success
  -- since, in the order in which they did: no accepted item is lost, doubled or overtaken.
  pub pipeline_fifo :
      (es : List (PipelineEvent T)) (p : MemoryPipeline T)
      → outputs es p ++ (pipeline_run es p).channel ≡ p.channel ++ sent es p
  unfolding pipeline_run
  pipeline_fifo [] p = sym (append-nil p.channel)
  pipeline_fifo (e ∷ es) p =
      append_assoc (taken (pipeline_step e p).0) _ _
      ∙ ap (◌++◌ (taken (pipeline_step e p).0)) (pipeline_fifo es (pipeline_step e p).1)
      ∙ sym (append_assoc (taken (pipeline_step e p).0) _ _)
      ∙ ap (λ (xs : List T). xs ++ sent es (pipeline_step e p).1) (sym (step_order e p))
      ∙ append_assoc p.channel (put_in e (pipeline_step e p).0 p.waiting) _

  -- A closed pipeline with no call of `Submit` under way.
  pub record IsShut (p : MemoryPipeline T) : Type 0 where
    pub is_done : p.done ≡ true
    pub none_waiting : p.waiting ≡ []

  step-IsShut :
      (e : PipelineEvent T) (p : MemoryPipeline T) → IsShut p → IsShut (pipeline_step e p).1
  unfolding pipeline_step
  step-IsShut (submit x) p h = ground arith
  step-IsShut (send_case i) p h = ground arith
  step-IsShut _ p h = ground arith

  put_in-IsShut :
      (e : PipelineEvent T) (p : MemoryPipeline T)
      → IsShut p
      → put_in e (pipeline_step e p).0 p.waiting ≡ []
  unfolding pipeline_step
  put_in-IsShut (submit x) p h = refl
  put_in-IsShut (send_case i) p h = ground arith
  put_in-IsShut _ p h = ground arith

  -- Once a pipeline is closed and no `Submit` is under way, nothing enters it any more.
  pub sent-IsShut : (es : List (PipelineEvent T)) (p : MemoryPipeline T) → IsShut p → sent es p ≡ []
  sent-IsShut [] p h = refl
  sent-IsShut (e ∷ es) p h =
      cc (put_in-IsShut e p h, sent-IsShut es (pipeline_step e p).1 (step-IsShut e p h))

  drain_one :
      (x : T) (xs : List T) (p : MemoryPipeline T)
      → p.channel ≡ x ∷ xs
      → p.done ≡ true
      → pipeline_step receive_done p ≡ (received x, record p { channel = xs })
  unfolding pipeline_step
  drain_one x xs p c d = ground arith

  drain_none :
      (p : MemoryPipeline T)
      → p.channel ≡ []
      → p.done ≡ true
      → (pipeline_step receive_done p).0 ≡ no_item closed
  unfolding pipeline_step
  drain_none p c d = ground arith

  drain_rest :
      (xs : List T) (p : MemoryPipeline T)
      → p.channel ≡ xs
      → p.done ≡ true
      → (outputs (map (λ _. receive_done) xs) p ≡ xs)
        × ((pipeline_step receive_done (pipeline_run (map (λ _. receive_done) xs) p)).0
            ≡ no_item closed)
  unfolding pipeline_run
  drain_rest [] p c d = (refl, drain_none p c d)
  drain_rest (x ∷ xs) p c d =
      let one = drain_one x xs p c d in
      let (rest, last) = drain_rest xs (record p { channel = xs }) refl d in
      (rw one (ap (◌∷◌ x) rest), rw (one, pipeline_run) last)

  -- Once a pipeline is closed and no `Submit` is under way, nothing enters it any more, whatever
  -- happens; and receiving as often as there are items gives them all, in order, and after that the
  -- error of a closed pipeline.
  pub shut_drains :
      (p : MemoryPipeline T)
      → IsShut p
      → ((es : List (PipelineEvent T)) → sent es p ≡ [])
        × (outputs (map (λ _. receive_done) p.channel) p ≡ p.channel)
        × ((pipeline_step receive_done (pipeline_run (map (λ _. receive_done) p.channel) p)).0
            ≡ no_item closed)
  shut_drains p h =
      let (all, last) = drain_rest p.channel p refl h.is_done in
      (λ es. sent-IsShut es p h, all, last)
