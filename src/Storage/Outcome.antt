-- ===== src/Storage/Outcome.antt =====
-- internal/storage/outcome.go: a batch of receipts summed up for each job.
use pushboy.Prelude.{
  ℕ, ◌+◌, String, ◌≡◌, sym, ◌∙◌, ap, inl, inr, Bool-cases, Bool, true, false, ◌&&◌, Option, none,
  some, List, [], ◌∷◌, ◌++◌, arith, ◌==◌, eq_iff, if◌then◌else◌, lookup, insert, lookup-insert,
  or_default, count_if, select, exists,
}
use mathlib.Core.List.{append-nil, append_assoc}
use pushboy.Model.Task.{DeliveryStatus, DeliveryReceipt}

pub record PushOutcomeDelta : Type 0 where
  pub success : ℕ
  pub failure : ℕ

abbrev pub no_outcomes : PushOutcomeDelta
no_outcomes = record { success = 0; failure = 0 }

abbrev pub add_status : DeliveryStatus → PushOutcomeDelta → PushOutcomeDelta
add_status DeliveryStatus.success d = record d { success = d.success + 1 }
add_status DeliveryStatus.failed d = record d { failure = d.failure + 1 }

abbrev pub is_failed : DeliveryStatus → Bool
is_failed DeliveryStatus.failed = true
is_failed DeliveryStatus.success = false

abbrev pub is_success : DeliveryStatus → Bool
is_success DeliveryStatus.failed = false
is_success DeliveryStatus.success = true

abbrev pub Deltas : Type 0
Deltas = List (String × PushOutcomeDelta)

-- The body of the loop: the delta of the job is made if it is missing, then counted up.
unfoldable pub count_receipt : DeliveryReceipt → Deltas → Deltas
count_receipt r deltas =
    insert r.job_id (add_status r.status (or_default (lookup r.job_id deltas) no_outcomes)) deltas

abbrev pub note_failure : DeliveryReceipt → List DeliveryReceipt → List DeliveryReceipt
note_failure r failures = if is_failed r.status then failures ++ r ∷ [] else failures

unfoldable pub summarize_loop :
    List DeliveryReceipt → Deltas → List DeliveryReceipt → Deltas × List DeliveryReceipt
unfolding count_receipt
summarize_loop [] deltas failures = (deltas, failures)
summarize_loop (r ∷ rs) deltas failures =
    summarize_loop rs (count_receipt r deltas) (note_failure r failures)

unfoldable pub summarize_push_receipts : List DeliveryReceipt → Deltas × List DeliveryReceipt
unfolding summarize_loop
summarize_push_receipts rs = summarize_loop rs [] []

-- What the receipts say of one job.
abbrev pub succeeded : String → DeliveryReceipt → Bool
succeeded j r = r.job_id == j && is_success r.status

abbrev pub failed_in : String → DeliveryReceipt → Bool
failed_in j r = r.job_id == j && is_failed r.status

abbrev pub mentions : String → List DeliveryReceipt → Bool
mentions j rs = exists (λ (r : DeliveryReceipt). r.job_id == j) rs

unfoldable pub plus_receipts : String → List DeliveryReceipt → PushOutcomeDelta → PushOutcomeDelta
plus_receipts j rs d = record {
  success = d.success + count_if (succeeded j) rs;
  failure = d.failure + count_if (failed_in j) rs;
}

-- The entry of a job after `rs`, from its entry before.
abbrev pub entry_after :
    String → List DeliveryReceipt → Option PushOutcomeDelta → Option PushOutcomeDelta
entry_after j rs none = if mentions j rs then some (plus_receipts j rs no_outcomes) else none
entry_after j rs (some d) = some (plus_receipts j rs d)

lookup-count_receipt :
    (j : String) (r : DeliveryReceipt) (deltas : Deltas)
    → lookup j (count_receipt r deltas) ≡ entry_after j (r ∷ []) (lookup j deltas)
unfolding count_receipt plus_receipts
lookup-count_receipt j r deltas = rw lookup-insert (ground (arith, eq_iff r.job_id j))

entry_after-cons :
    (j : String) (r : DeliveryReceipt) (rs : List DeliveryReceipt) (o : Option PushOutcomeDelta)
    → entry_after j rs (entry_after j (r ∷ []) o) ≡ entry_after j (r ∷ rs) o
unfolding plus_receipts
entry_after-cons j r rs none = ground arith
entry_after-cons j r rs (some d) = ground arith

loop_deltas :
    (j : String) (rs : List DeliveryReceipt) (deltas : Deltas) (fs : List DeliveryReceipt)
    → lookup j (summarize_loop rs deltas fs).0 ≡ entry_after j rs (lookup j deltas)
unfolding summarize_loop plus_receipts
loop_deltas j [] deltas fs = ground arith
loop_deltas j (r ∷ rs) deltas fs =
    loop_deltas j rs (count_receipt r deltas) (note_failure r fs)
    ∙ ap (entry_after j rs) (lookup-count_receipt j r deltas)
    ∙ entry_after-cons j r rs (lookup j deltas)

note_failure_lem :
    (r : DeliveryReceipt) (fs rest : List DeliveryReceipt)
    → note_failure r fs ++ rest ≡ fs ++ (if is_failed r.status then r ∷ rest else rest)
note_failure_lem r fs rest = elim (Bool-cases (is_failed r.status)) [
  | inl e ↦ rw e (append_assoc fs (r ∷ []) rest)
  | inr e ↦ rw e
]

loop_failures :
    (rs : List DeliveryReceipt) (deltas : Deltas) (fs : List DeliveryReceipt)
    → (summarize_loop rs deltas fs).1
      ≡ fs ++ select (λ (r : DeliveryReceipt). is_failed r.status) rs
unfolding summarize_loop
loop_failures [] deltas fs = sym (append-nil fs)
loop_failures (r ∷ rs) deltas fs =
    rw (loop_failures rs (count_receipt r deltas) (note_failure r fs)) (note_failure_lem r fs _)

-- For every job the summary of a batch holds exactly its numbers of successes and failures, it has no
-- entry for a job that the batch does not mention, and it lists the failed receipts in order.
pub summarize_push_receipts_lem :
    (rs : List DeliveryReceipt)
    → ((j : String)
        → lookup j (summarize_push_receipts rs).0 ≡ (
            if mentions j rs
            then some (record {
              success = count_if (succeeded j) rs;
              failure = count_if (failed_in j) rs;
            })
            else none))
      × ((summarize_push_receipts rs).1 ≡ select (λ (r : DeliveryReceipt). is_failed r.status) rs)
unfolding summarize_push_receipts lookup plus_receipts
summarize_push_receipts_lem rs =
    (λ j. loop_deltas j rs [] [] ∙ ground arith, loop_failures rs [] [])
