-- ===== src/Workers/FanoutLa/Ends.antt =====
-- The loop of `FanoutLATokens` ends: as many rounds are enough as there are tokens, and one.
use pushboy.Prelude.{
  ℕ, zero, suc, ◌<◌, ◌≤◌, String, ◌≡◌, ◌≢◌, refl, Bool, true, false, not, List, [], ◌∷◌, length,
  count_if, arith, Error, deadline, panic, wrap, Result, ok, err, Exec, pure, raise, on_error,
  attempt, ◌>>=◌, Preserves, Preserves-bind, Preserves-on_error, Preserves-pure, rewrap, eqb,
  continue, Bool-cases, inl, inr, if◌then◌else◌,
}
use pushboy.Model.LiveActivity.{in_progress, LiveActivityDispatchStatus}
use pushboy.Model.Task.{LaJobItem, LaSendOutcome}
use pushboy.Storage.Tables.{Db, LiveActivityToken}
use pushboy.Storage.World.{World, statement-Preserves, statement, advance}
use pushboy.Storage.Paging.{Collation, TokenBatch, to_batch, page}
use pushboy.Storage.LaOutcomes.{apply_la_outcome_batch}
use pushboy.Storage.Tokens.{from_result}
use pushboy.Storage.LaDispatches.{
  is_update, complete_la_dispatch_enqueue, supersede_la_dispatch_if_stale,
  update_la_dispatch_status,
}
use pushboy.Storage.LaTokens.{
  FanoutScope, get_la_token_batch_for_dispatch, get_la_dispatch_fanout_scope, scope_tokens, key,
}
use pushboy.Workers.FanoutLa.{
  LaLane, LoopEnd, superseded, all_pushed, apply_la_enqueue_failures, stored, fanout_la_tokens,
  la_fanout_loop, stale_check, fail_la_dispatch_fanout, fail_la_start_after_dispatch_failure,
  checked, finish_la,
}
use pushboy.Workers.FanoutLa.Refused.{push_eq, pushed}
use pushboy.Workers.FanoutLa.Forward.{left_behind, batch_forward}

-- The tokens that the table holds stay as they are.
abbrev Same : List LiveActivityToken → Db → Type 0
Same xs d = d.la_tokens ≡ xs

supersede-Preserves :
    (xs : List LiveActivityToken) (id : String) (n : ℕ)
    → Preserves (λ (w : World). Same xs w.db) (supersede_la_dispatch_if_stale id n)
unfolding supersede_la_dispatch_if_stale
supersede-Preserves xs id n =
    Preserves-bind _ _ (Preserves-on_error _ _ (statement-Preserves (Same xs) _ (λ t d h. h)))
      (λ _. Preserves-pure _)

scope-Preserves :
    (xs : List LiveActivityToken) (id : String)
    → Preserves (λ (w : World). Same xs w.db) (get_la_dispatch_fanout_scope id)
unfolding get_la_dispatch_fanout_scope statement ◌>>=◌
scope-Preserves xs id = record { holds = λ w h. ground arith }

module _ (c : Collation) where
  -- A batch that is read leaves the tokens, and moves the cursor if there are more.
  abbrev Moved : List LiveActivityToken → String → TokenBatch LiveActivityToken → World → Type 0
  Moved xs cursor batch w =
      Same xs w.db
      × (batch.has_more ≡ true → left_behind c batch.next_cursor xs < left_behind c cursor xs)

  abbrev read_batch : String → ℕ → FanoutScope → Exec World (TokenBatch LiveActivityToken)
  read_batch cursor size scope = do
    read ←
        on_error (wrap "error getting LA token batch")
          (statement (λ now d. (ok (page key c cursor size (scope_tokens scope now d)), d)))
    from_result (to_batch key size read)

  read_moves :
      (xs : List LiveActivityToken) (cursor : String) (size : ℕ) (r : Result FanoutScope × World)
      (batch : TokenBatch LiveActivityToken)
      → Same xs r.1.db
      → let out = continue (read_batch cursor size) r in
        out.0 ≡ ok batch → Moved xs cursor batch out.1
  unfolding statement ◌>>=◌
  read_moves xs cursor size (err e, w) batch h k = cc
  read_moves xs cursor size (ok scope, w) batch h k = (
    ground arith,
    λ more. ground (arith, batch_forward c scope (advance w).clock size cursor w.db batch),
  )

  batch_moves :
      (xs : List LiveActivityToken) (id cursor : String) (size : ℕ) (w : World)
      (batch : TokenBatch LiveActivityToken)
      → Same xs w.db
      → (get_la_token_batch_for_dispatch c id cursor size w).0 ≡ ok batch
      → Moved xs cursor batch (get_la_token_batch_for_dispatch c id cursor size w).1
  unfolding get_la_token_batch_for_dispatch ◌>>=◌
  batch_moves xs id cursor size w batch h e =
      read_moves xs cursor size (get_la_dispatch_fanout_scope id w) batch
        ((scope-Preserves xs id).holds w h) e

-- The error that the loop has when its rounds are used up; the code returns none that is only this.
abbrev IsOver : {A : Type 0} → Result A × LaLane → Type 0
IsOver out = out.0 ≢ err deadline

fail_IsOver :
    {A : Type 0} (job : LaJobItem) (total : ℕ) (refused : List LaSendOutcome) (text : String)
    (e : Error) (l : LaLane)
    → IsOver (fail_la_dispatch_fanout {A = A} job total refused (wrap text e) l)
unfolding fail_la_dispatch_fanout fail_la_start_after_dispatch_failure attempt ◌>>=◌
fail_IsOver job total refused text e l h = ground arith

checked-IsOver :
    {A B : Type 0} (job : LaJobItem) (total : ℕ) (refused : List LaSendOutcome) (text : String)
    (next : A → Exec LaLane B) (r : Result A) (l : LaLane)
    → ((a : A) → r ≡ ok a → IsOver (next a l))
    → IsOver (checked job total refused text next r l)
unfolding raise
checked-IsOver job total refused text next (ok a) l k = k a refl
checked-IsOver job total refused text next (err panic) l k = λ h. cc
checked-IsOver job total refused text next (err e) l k = fail_IsOver job total refused text e l

if_IsOver :
    {A : Type 0} (b : Bool) (one other : Exec LaLane A) (l : LaLane)
    → IsOver (one l)
    → (b ≡ false → IsOver (other l))
    → IsOver ((if b then one else other) l)
if_IsOver true one other l h k = h
if_IsOver false one other l h k = k refl

stale_check-Same :
    (xs : List LiveActivityToken) (job : LaJobItem) (total : ℕ) (l : LaLane)
    → Same xs l.world.db
    → Same xs (stale_check job total l).1.world.db
unfolding stored pure
stale_check-Same xs job total l h = elim (Bool-cases (is_update job.action)) [
  | inl e ↦ rw e ((supersede-Preserves xs job.dispatch_id total).holds l.world h)
  | inr e ↦ rw e h
]

stale_check-IsOver : (job : LaJobItem) (total : ℕ) (l : LaLane) → IsOver (stale_check job total l)
unfolding stored pure supersede_la_dispatch_if_stale statement ◌>>=◌
stale_check-IsOver job total l h = ground arith

module _ (c : Collation) where
  loop_IsOver :
      (fuel size : ℕ) (job : LaJobItem) (cursor : String) (total : ℕ) (refused : List LaSendOutcome)
      (l : LaLane) (xs : List LiveActivityToken)
      → Same xs l.world.db
      → left_behind c cursor xs < fuel
      → IsOver (la_fanout_loop c fuel size job cursor total refused l)
  unfolding la_fanout_loop attempt ◌>>=◌ stored
  loop_IsOver zero size job cursor total refused l xs same m = absurd (omega arith)
  loop_IsOver (suc fuel) size job cursor total refused l xs same m =
      checked-IsOver job total refused "error checking supersede state for dispatch" _
        (stale_check job total l).0 l1
        λ stale _.
          if_IsOver stale _ _ l1 (λ h. cc)
            λ _.
              checked-IsOver job total refused "error fetching live activity tokens" _ read.0 l2
                λ batch got.
                  let moved =
                    batch_moves c xs job.dispatch_id cursor size l1.world batch same1 got in
                  rw (push_eq job batch.tokens l2.world l2.tasks.taken l2.tasks.answers) (
                    if_IsOver (not batch.has_more) _ _ (after batch) (λ h. cc)
                      λ more.
                        loop_IsOver fuel size job batch.next_cursor _ _ (after batch) xs moved.0
                          (rounds batch more moved.1))
    where
      l1 : LaLane
      l1 = (stale_check job total l).1

      same1 : Same xs l1.world.db
      same1 = stale_check-Same xs job total l same

      read : Result (TokenBatch LiveActivityToken) × World
      read = get_la_token_batch_for_dispatch c job.dispatch_id cursor size l1.world

      l2 : LaLane
      l2 = record l1 { world = read.1 }

      after : TokenBatch LiveActivityToken → LaLane
      after batch = (pushed job l2.world l2.tasks.taken l2.tasks.answers batch.tokens).1

      rounds :
          (batch : TokenBatch LiveActivityToken)
          → not batch.has_more ≡ false
          → (batch.has_more ≡ true → left_behind c batch.next_cursor xs < left_behind c cursor xs)
          → left_behind c batch.next_cursor xs < fuel
      rounds batch more fewer = let h = fewer (ground arith) in omega arith

apply_IsOver : (os : List LaSendOutcome) (l : LaLane) → IsOver (apply_la_enqueue_failures os l)
unfolding apply_la_enqueue_failures on_error pure
apply_IsOver os l =
    if_IsOver (eqb (length os) 0) _ _ l (λ h. cc)
      (λ _ h. go (stored (apply_la_outcome_batch os) l) h)
  where
    go :
        (r : Result (Unit {0}) × LaLane)
        → IsOver (rewrap (wrap "error recording LA enqueue failures") r)
    go (ok _, s) h = cc
    go (err e, s) h = cc

status-Same :
    (xs : List LiveActivityToken) (id : String) (st : LiveActivityDispatchStatus) (w : World)
    → Same xs w.db
    → Same xs (update_la_dispatch_status id st w).1.db
unfolding update_la_dispatch_status statement ◌>>=◌
status-Same xs id st w h = ground arith

count_if-le-length :
    (p : LiveActivityToken → Bool) (xs : List LiveActivityToken) → count_if p xs ≤ length xs
count_if-le-length p [] = omega arith
count_if-le-length p (x ∷ xs) = ground (arith, count_if-le-length p xs)

module _ (c : Collation) where
  finish_IsOver :
      (job : LaJobItem) (out : LoopEnd × List LaSendOutcome) (l : LaLane)
      → IsOver (finish_la c job out l)
  unfolding attempt stored
  finish_IsOver job (superseded, refused) l = apply_IsOver refused l
  finish_IsOver job (all_pushed total, refused) l =
      checked-IsOver job total refused "error completing live activity dispatch enqueue"
        (λ _. apply_la_enqueue_failures refused)
        (complete_la_dispatch_enqueue job.dispatch_id total l.world).0
        (record l { world = (complete_la_dispatch_enqueue job.dispatch_id total l.world).1 })
        (λ _ _. apply_IsOver refused _)

  bind_IsOver :
      (job : LaJobItem) (r : Result (LoopEnd × List LaSendOutcome) × LaLane)
      → IsOver r
      → IsOver (continue (finish_la c job) r)
  bind_IsOver job (ok out, l) h = finish_IsOver job out l
  bind_IsOver job (err e, l) h = λ k. h (ground arith)

  -- A fan-out of a live activity dispatch does not run out of rounds if it has more of them than the
  -- table has tokens, whatever the size of a batch, whatever statements fail and however long they
  -- take: each batch but the last moves the cursor over a token.
  pub fanout_la_tokens_ends :
      (fuel size : ℕ) (job : LaJobItem) (l : LaLane)
      → length l.world.db.la_tokens < fuel
      → (fanout_la_tokens c fuel size job l).0 ≢ err deadline
  unfolding fanout_la_tokens attempt ◌>>=◌ stored
  fanout_la_tokens_ends fuel size job l m =
      checked-IsOver job 0 [] "error checking supersede state for dispatch" _
        (stale_check job 0 l).0 l1
        λ stale _.
          if_IsOver stale _ _ l1 (λ h. cc)
            λ _.
              checked-IsOver job 0 [] "error marking live activity dispatch in progress" _
                (update_la_dispatch_status job.dispatch_id in_progress l1.world).0 l2
                λ _ _. bind_IsOver job (la_fanout_loop c fuel size job "" 0 [] l2) (
                  loop_IsOver c fuel size job "" 0 [] l2 xs
                    (status-Same xs job.dispatch_id in_progress l1.world
                      (stale_check-Same xs job 0 l refl))
                    (omega
                      (arith, count_if-le-length (λ (x : LiveActivityToken). c.lt "" x.id) xs)))
    where
      xs : List LiveActivityToken
      xs = l.world.db.la_tokens

      l1 : LaLane
      l1 = (stale_check job 0 l).1

      l2 : LaLane
      l2 = record l1 { world = (update_la_dispatch_status job.dispatch_id in_progress l1.world).1 }
