-- ===== src/Storage/PushJobs/Lifecycle.antt =====
-- The life of one push job between the master, which finalizes its dispatch and then checks whether
-- it is done (internal/workers/fanout.go), and the outcome worker, which reports batches of receipts
-- at any time before, between and after.
use pushboy.Prelude.{ℕ, ◌+◌, ◌≤◌, ◌<◌, ◌≡◌, refl, ◌⊎◌, List, [], ◌∷◌, ◌++◌, arith}
use pushboy.Model.Push.{dispatched, completed}
use pushboy.Storage.Tables.{PublishJob}
use pushboy.Storage.PushJobs.{count_row, complete_row, finalize_row}

pub data JobEvent : Type 0 where
  report : ℕ → ℕ → JobEvent
  finalize : ℕ → JobEvent
  check : JobEvent

-- The UPDATEs of the statement that the event stands for, on the job's row, at a time.
unfoldable pub job_event : ℕ × JobEvent → PublishJob → PublishJob
unfolding count_row complete_row finalize_row
job_event (now, report s f) j =
    complete_row now (count_row (record { success = s; failure = f }) now j)
job_event (now, finalize total) j = finalize_row total now j
job_event (now, check) j = complete_row now j

unfoldable pub run_events : List (ℕ × JobEvent) → PublishJob → PublishJob
run_events [] j = j
run_events (e ∷ es) j = run_events es (job_event e j)

abbrev pub successes : List (ℕ × JobEvent) → ℕ
successes [] = 0
successes ((now, report s f) ∷ es) = s + successes es
successes ((now, finalize t) ∷ es) = successes es
successes ((now, check) ∷ es) = successes es

abbrev pub failures : List (ℕ × JobEvent) → ℕ
failures [] = 0
failures ((now, report s f) ∷ es) = f + failures es
failures ((now, finalize t) ∷ es) = failures es
failures ((now, check) ∷ es) = failures es

abbrev pub IsFinalize : ℕ × JobEvent → Type 0
IsFinalize (now, report s f) = ⊥
IsFinalize (now, finalize total) = Unit
IsFinalize (now, check) = ⊥

-- No dispatch is finalized among the events.
abbrev pub NoFinalize : List (ℕ × JobEvent) → Type 0
NoFinalize [] = Unit
NoFinalize (e ∷ es) = (¬ IsFinalize e) × NoFinalize es

abbrev pub counted : PublishJob → ℕ
counted j = j.success_count + j.failure_count

run_events-append :
    (xs ys : List (ℕ × JobEvent)) (j : PublishJob)
    → run_events (xs ++ ys) j ≡ run_events ys (run_events xs j)
unfolding run_events
run_events-append [] ys j = refl
run_events-append (e ∷ es) ys j = run_events-append es ys (job_event e j)

-- A job is never complete before as many outcomes are counted as its total says.
abbrev pub IsSettled : PublishJob → Type 0
IsSettled j = j.status ≡ completed → j.total_count ≤ counted j

job_event-IsSettled : (e : ℕ × JobEvent) (j : PublishJob) → IsSettled j → IsSettled (job_event e j)
unfolding job_event
job_event-IsSettled (now, report s f) j h = λ c. ground arith
job_event-IsSettled (now, finalize t) j h = λ c. ground arith
job_event-IsSettled (now, check) j h = λ c. ground arith

-- Whatever the order of reports, finalizations and checks, no job is complete before as many
-- outcomes are counted as its total says.
pub run_events-IsSettled :
    (es : List (ℕ × JobEvent)) (j : PublishJob) → IsSettled j → IsSettled (run_events es j)
unfolding run_events
run_events-IsSettled [] j h = h
run_events-IsSettled (e ∷ es) j h =
    run_events-IsSettled es (job_event e j) (job_event-IsSettled e j h)

event_counts :
    (e : ℕ × JobEvent) (j : PublishJob)
    → ((job_event e j).success_count ≡ j.success_count + successes (e ∷ []))
      × ((job_event e j).failure_count ≡ j.failure_count + failures (e ∷ []))
unfolding job_event
event_counts (now, report s f) j = ground arith
event_counts (now, finalize t) j = ground arith
event_counts (now, check) j = ground arith

-- The counters are the sums of what was reported, in any order of the events.
pub run_events_counts :
    (es : List (ℕ × JobEvent)) (j : PublishJob)
    → ((run_events es j).success_count ≡ j.success_count + successes es)
      × ((run_events es j).failure_count ≡ j.failure_count + failures es)
unfolding run_events
run_events_counts [] j = (omega arith, omega arith)
run_events_counts ((now, report s f) ∷ es) j =
    ground (
      arith,
      run_events_counts es (job_event (now, report s f) j),
      event_counts (now, report s f) j,
    )
run_events_counts ((now, finalize t) ∷ es) j =
    ground (
      arith,
      run_events_counts es (job_event (now, finalize t) j),
      event_counts (now, finalize t) j,
    )
run_events_counts ((now, check) ∷ es) j =
    ground (arith, run_events_counts es (job_event (now, check) j), event_counts (now, check) j)

-- After a finalization the job is dispatched or complete, with the total that was counted.
record IsSent (total : ℕ) (j : PublishJob) : Type 0 where
  sum : j.total_count ≡ total
  phase : (j.status ≡ dispatched) ⊎ (j.status ≡ completed)

IsSent-event :
    (total : ℕ) (e : ℕ × JobEvent) (j : PublishJob)
    → ¬ IsFinalize e
    → IsSent total j
    → IsSent total (job_event e j)
unfolding job_event
IsSent-event total (now, report s f) j n h = ground arith
IsSent-event total (now, finalize t) j n h = absurd (n tt)
IsSent-event total (now, check) j n h = ground arith

IsSent-run :
    (total : ℕ) (es : List (ℕ × JobEvent)) (j : PublishJob)
    → NoFinalize es
    → IsSent total j
    → IsSent total (run_events es j)
unfolding run_events
IsSent-run total [] j n h = h
IsSent-run total (e ∷ es) j n h =
    IsSent-run total es (job_event e j) n.1 (IsSent-event total e j n.0 h)

-- Once a check or a report has passed, a job that is not complete still waits for outcomes.
record IsChecked (total : ℕ) (j : PublishJob) : Type 0 where
  sum : j.total_count ≡ total
  phase : ((j.status ≡ dispatched) × (counted j < total)) ⊎ (j.status ≡ completed)

check-IsChecked :
    (total now : ℕ) (j : PublishJob) → IsSent total j → IsChecked total (job_event (now, check) j)
unfolding job_event
check-IsChecked total now j h = ground arith

IsChecked-event :
    (total : ℕ) (e : ℕ × JobEvent) (j : PublishJob)
    → ¬ IsFinalize e
    → IsChecked total j
    → IsChecked total (job_event e j)
unfolding job_event
IsChecked-event total (now, report s f) j n h = ground arith
IsChecked-event total (now, finalize t) j n h = absurd (n tt)
IsChecked-event total (now, check) j n h = ground arith

IsChecked-run :
    (total : ℕ) (es : List (ℕ × JobEvent)) (j : PublishJob)
    → NoFinalize es
    → IsChecked total j
    → IsChecked total (run_events es j)
unfolding run_events
IsChecked-run total [] j n h = h
IsChecked-run total (e ∷ es) j n h =
    IsChecked-run total es (job_event e j) n.1 (IsChecked-event total e j n.0 h)

finalize-IsSent :
    (total now : ℕ) (j : PublishJob) → IsSent total (job_event (now, finalize total) j)
unfolding job_event
finalize-IsSent total now j = ground arith

-- The events around one finalization and the check that follows it.
abbrev pub schedule :
    List (ℕ × JobEvent)
    → ℕ × ℕ
    → List (ℕ × JobEvent)
    → ℕ
    → List (ℕ × JobEvent)
    → List (ℕ × JobEvent)
schedule before (total, t) between u after =
    before ++ (t, finalize total) ∷ (between ++ (u, check) ∷ after)

finalize-IsSettled :
    (total now : ℕ) (j : PublishJob) → IsSettled (job_event (now, finalize total) j)
unfolding job_event
finalize-IsSettled total now j = λ c. ground arith

settled_verdict :
    (total : ℕ) (k : PublishJob)
    → IsChecked total k
    → IsSettled k
    → (total ≤ counted k → k.status ≡ completed) × (k.status ≡ completed → total ≤ counted k)
settled_verdict total k c s = (λ h. ground arith, λ h. omega (arith, s h, c.sum))

-- A job whose dispatch is finalized, then checked and not finalized again, is complete at the end
-- exactly if the outcomes that were counted reach the total, however the reports fall around the two.
pub schedule_completes :
    (before between after : List (ℕ × JobEvent)) (total t u : ℕ) (j : PublishJob)
    → NoFinalize between
    → NoFinalize after
    → let k = run_events (schedule before (total, t) between u after) j in
      (total ≤ counted k → k.status ≡ completed) × (k.status ≡ completed → total ≤ counted k)
schedule_completes before between after total t u j nm na = rw (run_events-append before _ j) (
    rw opened (
      settled_verdict total _
        (IsChecked-run total after _ na (
          check-IsChecked total u _
            (IsSent-run total between _ nm (finalize-IsSent total t (run_events before j)))))
        (run_events-IsSettled after _ (
          job_event-IsSettled (u, check) _
            (run_events-IsSettled between _ (finalize-IsSettled total t (run_events before j)))))))
  where
    opened :
        run_events ((t, finalize total) ∷ (between ++ (u, check) ∷ after)) (run_events before j)
        ≡ run_events after (
            job_event
              (u, check)
              (run_events between (job_event (t, finalize total) (run_events before j))))
    opened = unfold run_events in run_events-append between _ _
