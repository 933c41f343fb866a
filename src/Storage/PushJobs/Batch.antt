-- ===== src/Storage/PushJobs/Batch.antt =====
-- `ApplyPushOutcomeBatch` against the receipts of its batch.
use pushboy.Prelude.{
  ℕ, ◌+◌, String, ◌≡◌, refl, sym, ap, ◌∙◌, Option, none, some, List, [], ◌∷◌, map, map_id, ◌++◌,
  preserve_rules, Preserves, Preserves-bind, Preserves-gets, Preserves-on_error, bind-ok, fun_ext,
  arith, eq_iff, if◌then◌else◌, lookup, Distinct, insert-Distinct, update_where, count_if, Error,
  Result, ok, err, wrap, on_error, ◌>>=◌, pure,
}
use pushboy.Model.Task.{DeliveryReceipt}
use pushboy.Storage.Tables.{Db, PublishJob}
use pushboy.Storage.World.{
  World, advance, statement, statement_at, statement_at-Preserves, transaction-ok,
  transaction_atomic,
}
use pushboy.Storage.Outcome.{
  PushOutcomeDelta, Deltas, summarize_push_receipts, summarize_loop, summarize_push_receipts_lem,
  succeeded, failed_in, mentions,
}
use pushboy.Storage.PushJobs.{
  has_id, on_job, count_row, complete_row, insert_receipts, buffer_receipts,
  bulk_insert_receipts_tx, apply_deltas, outcome_body, apply_push_outcome_batch,
}

abbrev job_step : ℕ → PushOutcomeDelta → PublishJob → PublishJob
job_step now delta j = complete_row now (count_row delta now j)

-- The deltas as one pass over the rows.
abbrev apply_rows : ℕ → Deltas → List PublishJob → List PublishJob
apply_rows now [] js = js
apply_rows now ((id, delta) ∷ ds) js = apply_rows now ds (
    update_where (has_id id) (complete_row now) (update_where (has_id id) (count_row delta now) js))

-- One round of the loop, if none of its statements is lost.
delta_step :
    (now : ℕ) (id : String) (delta : PushOutcomeDelta) (ds : Deltas) (w : World)
    → (apply_deltas now ((id, delta) ∷ ds) w).0 ≡ ok tt
    → apply_deltas now ((id, delta) ∷ ds) w
      ≡ apply_deltas now ds (record (advance (advance w)) {
        db = on_job id (complete_row now) (on_job id (count_row delta now) w.db);
      })
unfolding apply_deltas statement_at ◌>>=◌
delta_step now id delta ds w h = ground arith

apply_deltas-ok :
    (now : ℕ) (ds : Deltas) (w : World)
    → (apply_deltas now ds w).0 ≡ ok tt
    → (apply_deltas now ds w).1.db.jobs ≡ apply_rows now ds w.db.jobs
apply_deltas-ok now [] w h = unfold apply_deltas ◌>>=◌ in refl
apply_deltas-ok now ((id, delta) ∷ ds) w h =
    let e = delta_step now id delta ds w h in rw e (apply_deltas-ok now ds _ (rw e at h))

row_after : ℕ → Option PushOutcomeDelta → PublishJob → PublishJob
row_after now none j = j
row_after now (some delta) j = job_step now delta j

row_round :
    (now : ℕ) (id : String) (delta : PushOutcomeDelta) (ds : Deltas) (j : PublishJob)
    → lookup id ds ≡ none
    → let k = if has_id id j then count_row delta now j else j in
      let l = if has_id id k then complete_row now k else k in
      row_after now (lookup l.id ds) l ≡ row_after now (lookup j.id ((id, delta) ∷ ds)) j
unfolding lookup row_after count_row complete_row
row_round now id delta ds j h = ground (arith, eq_iff j.id id, eq_iff id j.id)

-- With distinct keys every row is changed by its own delta alone.
apply_rows-lookup :
    (now : ℕ) (ds : Deltas) (js : List PublishJob)
    → Distinct ds
    → apply_rows now ds js ≡ map (λ (j : PublishJob). row_after now (lookup j.id ds) j) js
unfolding row_after lookup
apply_rows-lookup now [] js h = sym (map_id js)
apply_rows-lookup now ((id, delta) ∷ ds) js h = apply_rows-lookup now ds _ h.1 ∙ rows js
  where
    rows :
        (js : List PublishJob)
        → map
            (λ (j : PublishJob). row_after now (lookup j.id ds) j)
            (update_where
              (has_id id)
              (complete_row now)
              (update_where (has_id id) (count_row delta now) js))
          ≡ map (λ (j : PublishJob). row_after now (lookup j.id ((id, delta) ∷ ds)) j) js
    rows [] = refl
    rows (j ∷ js) = cc (row_round now id delta ds j h.0, rows js)

insert_receipts-jobs : (rs : List DeliveryReceipt) (d : Db) → (insert_receipts rs d).1.jobs ≡ d.jobs
unfolding insert_receipts
insert_receipts-jobs [] d = refl
insert_receipts-jobs (r ∷ rs) d =
    ground (arith, insert_receipts-jobs rs (record d { receipts = d.receipts ++ r ∷ [] }))

module _ (js : List PublishJob) where
  abbrev HasJobs : Db → Type 0
  HasJobs d = d.jobs ≡ js

  flush-HasJobs :
      (rows : List DeliveryReceipt) (d : Db) → HasJobs d → HasJobs (insert_receipts rows d).1
  flush-HasJobs rows d h = insert_receipts-jobs rows d ∙ h

  buffer_receipts-HasJobs :
      (rs : List DeliveryReceipt) → Preserves (λ w. HasJobs w.db) (buffer_receipts rs)
  unfolding buffer_receipts statement
  buffer_receipts-HasJobs [] = search preserve_rules
  buffer_receipts-HasJobs (r ∷ rs) = Preserves-bind _ _ (Preserves-gets _) λ now.
      Preserves-bind _ _ (search (preserve_rules, statement_at-Preserves HasJobs))
        λ _. Preserves-bind _ _ (buffer_receipts-HasJobs rs) λ _. search preserve_rules

  bulk_insert_receipts_tx-HasJobs :
      (now : ℕ) (rs : List DeliveryReceipt)
      → Preserves (λ w. HasJobs w.db) (bulk_insert_receipts_tx now rs)
  unfolding bulk_insert_receipts_tx statement
  bulk_insert_receipts_tx-HasJobs now [] = search preserve_rules
  bulk_insert_receipts_tx-HasJobs now (r ∷ rs) =
      search
        (preserve_rules, statement_at-Preserves HasJobs, buffer_receipts-HasJobs, flush-HasJobs)
        depth 9

-- What the batch does to one job: nothing if it has no receipt in it; otherwise its counters grow by
-- the numbers of its receipts, and it is completed if it was dispatched and they reach its total.
abbrev pub tally : ℕ → List DeliveryReceipt → PublishJob → PublishJob
tally now rs j =
    if mentions j.id rs
    then complete_row now (record j {
      success_count = j.success_count + count_if (succeeded j.id) rs;
      failure_count = j.failure_count + count_if (failed_in j.id) rs;
    })
    else j

tally_nothing : (now : ℕ) (js : List PublishJob) → map (tally now []) js ≡ js
tally_nothing now [] = refl
tally_nothing now (j ∷ js) = ap (◌∷◌ j) (tally_nothing now js)

row_after-summary :
    (now : ℕ) (rs : List DeliveryReceipt) (j : PublishJob)
    → row_after now (lookup j.id (summarize_push_receipts rs).0) j ≡ tally now rs j
unfolding row_after count_row
row_after-summary now rs j = ground (arith, (summarize_push_receipts_lem rs).0 j.id)

summary-Distinct :
    (rs : List DeliveryReceipt) (deltas : Deltas) (fs : List DeliveryReceipt)
    → Distinct deltas
    → Distinct (summarize_loop rs deltas fs).0
unfolding summarize_loop
summary-Distinct [] deltas fs h = h
summary-Distinct (r ∷ rs) deltas fs h =
    summary-Distinct rs _ _ (insert-Distinct r.job_id _ deltas h)

outcome_body-ok :
    (rs : List DeliveryReceipt) (now : ℕ) (w : World)
    → (outcome_body (summarize_push_receipts rs) now w).0 ≡ ok tt
    → (outcome_body (summarize_push_receipts rs) now w).1.db.jobs ≡ map (tally now rs) w.db.jobs
unfolding summarize_push_receipts
outcome_body-ok rs now w h =
    let bulk =
      on_error (wrap "error bulk recording failure receipts")
        (bulk_insert_receipts_tx now failures) in
    let (_, s, ran, rest) = bind-ok bulk (λ _. apply_deltas now deltas) w h in
    let same : s.db.jobs ≡ w.db.jobs =
      ap (λ (p : Result (Unit {0}) × World). p.1.db.jobs) (sym ran)
      ∙ (Preserves-on_error _ _ (bulk_insert_receipts_tx-HasJobs w.db.jobs now failures)).holds w
          refl in
    rw rest (
      apply_deltas-ok now deltas s (rw rest at h)
      ∙ apply_rows-lookup now deltas s.db.jobs (summary-Distinct rs [] [] tt)
      ∙ ap (λ (f : PublishJob → PublishJob). map f s.db.jobs) (fun_ext (row_after-summary now rs))
      ∙ ap (map (tally now rs)) same)
  where
    deltas : Deltas
    deltas = (summarize_push_receipts rs).0

    failures : List DeliveryReceipt
    failures = (summarize_push_receipts rs).1

-- A batch that is applied counts each of its receipts once, for the job that it names; a batch that
-- is not leaves every table as it was.
pub apply_push_outcome_batch_lem :
    (rs : List DeliveryReceipt) (w : World)
    → let (r, w') = apply_push_outcome_batch rs w in
      (r ≡ ok tt → w'.db.jobs ≡ map (tally (advance w).clock rs) w.db.jobs)
      × ((e : Error) → r ≡ err e → w'.db ≡ w.db)
unfolding apply_push_outcome_batch pure
apply_push_outcome_batch_lem [] w =
    (λ _. sym (tally_nothing (advance w).clock w.db.jobs), λ e h. refl)
apply_push_outcome_batch_lem (r ∷ rs) w = (
  λ h.
      let (done, kept) = transaction-ok _ _ (outcome_body (summarize_push_receipts (r ∷ rs))) w h in
      ap (λ (d : Db). d.jobs) kept ∙ outcome_body-ok (r ∷ rs) (advance w).clock (advance w) done,
  λ e. transaction_atomic _ _ _ w e,
)
