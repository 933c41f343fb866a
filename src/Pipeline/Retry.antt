-- ===== src/Pipeline/Retry.antt =====
-- `memoryDelivery` of internal/pipeline/memory.go: a received item that can be submitted again.
use pushboy.Prelude.{
  ℕ, zero, suc, ◌+◌, ◌≡◌, refl, List, [], ◌∷◌, arith, ltb, message, if◌then◌else◌, ap,
}
use pushboy.Pipeline.{MemoryPipeline, Reply, refused, submit, pipeline_step}

pub record MemoryDelivery (T : Type 0) : Type 0 where
  pub pipe : MemoryPipeline T
  pub item : T
  pub retry_count : ℕ

module _ {T : Type 0} where
  -- `Receive` hands out deliveries with no retry counted.
  unfoldable pub new_delivery : MemoryPipeline T → T → MemoryDelivery T
  new_delivery p x = record { pipe = p; item = x; retry_count = 0 }

  abbrev pub resubmitted :
      MemoryDelivery T → Reply T × MemoryPipeline T → Reply T × MemoryDelivery T
  resubmitted d (r, p) = (r, record d { pipe = p })

  -- The receiver is a copy: the count that the method increases is the copy's, and the caller's
  -- delivery keeps its own. The pipeline is shared.
  unfoldable pub retry : ℕ → MemoryDelivery T → Reply T × MemoryDelivery T
  unfolding pipeline_step
  retry max_retry d =
      if ltb max_retry d.retry_count
      then (refused (message "Max retry rechead"), d)
      else let md = record d { retry_count = d.retry_count + 1 } in
        resubmitted d (pipeline_step (submit md.item) md.pipe)

  -- The replies to a number of retries of one delivery.
  unfoldable pub retries : ℕ → ℕ → MemoryDelivery T → List (Reply T)
  unfolding retry
  retries zero max_retry d = []
  retries (suc n) max_retry d = (retry max_retry d).0 ∷ retries n max_retry (retry max_retry d).1

  -- The replies of submitting one item that often.
  unfoldable pub submits : ℕ → T → MemoryPipeline T → List (Reply T)
  submits zero x p = []
  submits (suc n) x p = (pipeline_step (submit x) p).0 ∷ submits n x (pipeline_step (submit x) p).1

  retry_fresh :
      (max_retry : ℕ) (p : MemoryPipeline T) (x : T)
      → retry max_retry (new_delivery p x)
        ≡ ((pipeline_step (submit x) p).0, new_delivery (pipeline_step (submit x) p).1 x)
  unfolding retry new_delivery
  retry_fresh max_retry p x = ground arith

  -- The limit is never reached: a received delivery can be retried any number of times under any
  -- limit, and each retry does what a fresh `Submit` of its item does.
  pub retries_unlimited :
      (n max_retry : ℕ) (p : MemoryPipeline T) (x : T)
      → retries n max_retry (new_delivery p x) ≡ submits n x p
  unfolding retries submits
  retries_unlimited zero m p x = refl
  retries_unlimited (suc n) m p x = rw (retry_fresh m p x) (
      ap (◌∷◌ (pipeline_step (submit x) p).0)
        (retries_unlimited n m (pipeline_step (submit x) p).1 x))
