-- ===== src/Pipeline.antt =====
-- internal/pipeline/pipeline.go and memory.go: the in-memory pipeline. A call of `Submit` enters when
-- it has passed its first `select`; it then waits in the second until one of that one's cases is
-- taken. Which ready case a `select` takes is the runtime's choice, so each case is an event of its
-- own, and an event whose case is not ready does nothing.
pub mod Order
pub mod Retry
pub mod Outbox
use pushboy.Prelude.{
  ℕ, zero, suc, ◌+◌, Bool, true, false, ◌&&◌, not, Option, none, some, List, [], ◌∷◌, ◌++◌, ltb,
  length, Error, closed, Result, ok, err, if◌then◌else◌,
}

pub record MemoryPipeline (T : Type 0) : Type 0 where
  pub capacity : ℕ
  pub channel : List T
  pub done : Bool
  pub waiting : List T

pub data Reply (T : Type 0) : Type 0 where
  not_ready accepted entered : Reply T
  refused : Error → Reply T
  received : T → Reply T
  no_item : Error → Reply T

pub data PipelineEvent (T : Type 0) : Type 0 where
  -- a `Submit` is called
  submit : T → PipelineEvent T
  -- the waiting `Submit` of that position takes the case of the channel, or that of `done`
  send_case done_case : ℕ → PipelineEvent T
  -- it takes the case of its context, whose `Err` that is
  context_case : Error → ℕ → PipelineEvent T
  -- a `Receive` takes an item, or the case of its context, or that of `done`
  receive receive_context receive_done : PipelineEvent T
  -- a `Receive` and a waiting `Submit` meet at a channel with an empty buffer
  meet : ℕ → PipelineEvent T
  close : PipelineEvent T

module _ {T : Type 0} where
  -- `bufferSize` is not negative here: a negative one is 0.
  unfoldable pub new_memory_pipeline : ℕ → MemoryPipeline T
  new_memory_pipeline size = record { capacity = size; channel = []; done = false; waiting = [] }

  -- The item of a waiting call, and the others.
  abbrev pub pick : ℕ → List T → Option (T × List T)
  pick i [] = none
  pick zero (x ∷ xs) = some (x, xs)
  pick (suc i) (x ∷ xs) = elim (pick i xs) [ none ↦ none | some (y, ys) ↦ some (y, x ∷ ys) ]

  abbrev pub enter : T → MemoryPipeline T → Reply T × MemoryPipeline T
  enter x p =
      if p.done then (refused closed, p) else (entered, record p { waiting = p.waiting ++ x ∷ [] })

  abbrev pub send : Option (T × List T) → MemoryPipeline T → Reply T × MemoryPipeline T
  send none p = (not_ready, p)
  send (some (x, rest)) p =
      if ltb (length p.channel) p.capacity
      then (accepted, record p { channel = p.channel ++ x ∷ []; waiting = rest })
      else (not_ready, p)

  abbrev pub leave : Error → Option (T × List T) → MemoryPipeline T → Reply T × MemoryPipeline T
  leave e none p = (not_ready, p)
  leave e (some (x, rest)) p = (refused e, record p { waiting = rest })

  abbrev pub take_item : List T → MemoryPipeline T → Reply T × MemoryPipeline T
  take_item [] p = (not_ready, p)
  take_item (x ∷ rest) p = (received x, record p { channel = rest })

  -- The inner `select` of the case of `done`: what is buffered is still handed out.
  abbrev pub drain_item : List T → MemoryPipeline T → Reply T × MemoryPipeline T
  drain_item [] p = (no_item closed, p)
  drain_item (x ∷ rest) p = (received x, record p { channel = rest })

  abbrev pub meet_item :
      List T → Option (T × List T) → MemoryPipeline T → Reply T × MemoryPipeline T
  meet_item (y ∷ ys) o p = (not_ready, p)
  meet_item [] none p = (not_ready, p)
  meet_item [] (some (x, rest)) p = (received x, record p { waiting = rest })

  unfoldable pub pipeline_step : PipelineEvent T → MemoryPipeline T → Reply T × MemoryPipeline T
  pipeline_step (submit x) p = enter x p
  pipeline_step (send_case i) p = send (pick i p.waiting) p
  pipeline_step (context_case e i) p = leave e (pick i p.waiting) p
  pipeline_step (done_case i) p =
      if p.done then leave closed (pick i p.waiting) p else (not_ready, p)
  pipeline_step receive p = take_item p.channel p
  pipeline_step receive_context p = (no_item closed, p)
  pipeline_step receive_done p = if p.done then drain_item p.channel p else (not_ready, p)
  pipeline_step (meet i) p = meet_item p.channel (pick i p.waiting) p
  pipeline_step close p = (not_ready, record p { done = true })

  -- The item of the waiting call at that position.
  abbrev pub item_at : ℕ → List T → List T
  item_at i [] = []
  item_at zero (x ∷ xs) = x ∷ []
  item_at (suc i) (x ∷ xs) = item_at i xs

  -- The item that an event sent, by the reply: that of a `Submit` which is told that its item is
  -- accepted, or that of one which has met a `Receive`.
  abbrev pub put_in : PipelineEvent T → Reply T → List T → List T
  put_in (send_case i) accepted calls = item_at i calls
  put_in (meet i) (received x) calls = item_at i calls
  put_in _ _ calls = []

  abbrev pub taken : Reply T → List T
  taken (received x) = x ∷ []
  taken _ = []

  unfoldable pub pipeline_run : List (PipelineEvent T) → MemoryPipeline T → MemoryPipeline T
  pipeline_run [] p = p
  pipeline_run (e ∷ es) p = pipeline_run es (pipeline_step e p).1

  -- Over a history: what went in, and what came out.
  abbrev pub sent : List (PipelineEvent T) → MemoryPipeline T → List T
  sent [] p = []
  sent (e ∷ es) p = put_in e (pipeline_step e p).0 p.waiting ++ sent es (pipeline_step e p).1

  abbrev pub outputs : List (PipelineEvent T) → MemoryPipeline T → List T
  outputs [] p = []
  outputs (e ∷ es) p = taken (pipeline_step e p).0 ++ outputs es (pipeline_step e p).1
