-- ===== src/Storage/LaOutcomes/Reliable.antt =====
-- A batch of outcomes in a world that loses no statement.
use pushboy.Prelude.{
  ℕ, ◌≡◌, refl, ap, false, none, some, Option, List, [], ◌∷◌, Error, Result, ok, Exec, ◌>>=◌,
  on_error, pure, gets, if◌then◌else◌, Bool, true, String,
}
use pushboy.Model.Task.{LaSendOutcome}
use pushboy.Storage.Tables.{Db, LiveActivityDispatch}
use pushboy.Storage.World.{
  World, IsReliable, advance, advance-IsReliable, statement_at, statement_at_reliable,
  transaction_reliable,
}
use pushboy.Storage.Outcome.{Deltas}
use pushboy.Storage.LaDispatches.{
  close_after, complete_la_dispatch_if_ready_tx, close_la_job_after_end_dispatch_tx,
}
use pushboy.Storage.LaOutcomes.{
  invalidate_la_tokens_tx, associate_all, apply_la_outcome_deltas_tx, apply_la_outcome_batch,
  shows_activity, la_outcome_body, summarize_la_outcomes,
}

-- In a world that loses no statement the call returns a value, in a world that loses none.
pub record Succeeds {A : Type 0} (call : Exec World A) : Type 0 where
  pub holds :
      (w : World) → IsReliable w → (a : A) × (v : World) × IsReliable v × (call w ≡ (ok a, v))

module _ {A : Type 0} where
  Succeeds-pure : (a : A) → Succeeds (pure {S = World} a)
  unfolding pure
  Succeeds-pure a = record { holds = λ w r. (a, w, r, refl) }

  Succeeds-gets : (read : World → A) → Succeeds (gets read)
  unfolding gets
  Succeeds-gets read = record { holds = λ w r. (read w, w, r, refl) }

  Succeeds-on_error :
      (f : Error → Error) (call : Exec World A) → Succeeds call → Succeeds (on_error f call)
  unfolding on_error
  Succeeds-on_error f call s = record {
    holds = λ w r. let (a, v, k, e) = s.holds w r in (a, v, k, rw e refl);
  }

  Succeeds-if :
      (test : Bool) (one other : Exec World A)
      → Succeeds one
      → Succeeds other
      → Succeeds (if test then one else other)
  Succeeds-if true one other p q = p
  Succeeds-if false one other p q = q

  -- A text that rejects nothing.
  Succeeds-statement_at :
      (now : World → ℕ) (value : ℕ → Db → A) (change : ℕ → Db → Db)
      → Succeeds (statement_at now (λ t d. (ok (value t d), change t d)))
  Succeeds-statement_at now value change = record {
    holds = λ w r. (
      value (now (advance w)) w.db,
      record (advance w) { db = change (now (advance w)) w.db },
      advance-IsReliable w r,
      statement_at_reliable now _ w r,
    );
  }

Succeeds-bind :
    {A B : Type 0} (call : Exec World A) (next : A → Exec World B)
    → Succeeds call
    → ((a : A) → Succeeds (next a))
    → Succeeds (call >>= next)
unfolding ◌>>=◌
Succeeds-bind call next p all = record {
  holds = λ w r.
      let (a, v, k, e) = p.holds w r in let (b, u, m, f) = (all a).holds v k in (b, u, m, rw e f);
}

close-Succeeds : (now : ℕ) (found : Option LiveActivityDispatch) → Succeeds (close_after now found)
unfolding close_la_job_after_end_dispatch_tx
close-Succeeds now none = Succeeds-pure _
close-Succeeds now (some x) =
    Succeeds-if _ _ _
      (Succeeds-bind _ _ (Succeeds-on_error _ _ (Succeeds-statement_at _ _ _))
        (λ _. Succeeds-pure _))
      (Succeeds-pure _)

deltas-Succeeds : (now : ℕ) (ds : Deltas) → Succeeds (apply_la_outcome_deltas_tx now ds)
unfolding apply_la_outcome_deltas_tx complete_la_dispatch_if_ready_tx
deltas-Succeeds now [] = Succeeds-pure _
deltas-Succeeds now ((id, delta) ∷ ds) =
    Succeeds-bind _ _ (Succeeds-on_error _ _ (Succeeds-statement_at _ _ _)) λ _.
      Succeeds-bind _ _
        (Succeeds-bind _ _ (Succeeds-on_error _ _ (Succeeds-statement_at _ _ _))
          (close-Succeeds now))
        (λ _. deltas-Succeeds now ds)

invalidate-Succeeds : (now : ℕ) (ids : List String) → Succeeds (invalidate_la_tokens_tx now ids)
unfolding invalidate_la_tokens_tx
invalidate-Succeeds now ids =
    Succeeds-if _ _ _ (Succeeds-pure _) (Succeeds-on_error _ _ (Succeeds-statement_at _ _ _))

associate_none :
    (now seen : ℕ) (o : LaSendOutcome)
    → shows_activity o ≡ false
    → Succeeds (associate_all now seen (o ∷ []))
unfolding associate_all
associate_none now seen o h = rw h (Succeeds-pure _)

body-Succeeds :
    (o : LaSendOutcome) (s : Deltas × List String) (now : ℕ)
    → shows_activity o ≡ false
    → Succeeds (la_outcome_body (o ∷ []) s now)
body-Succeeds o (ds, ids) now h = Succeeds-bind _ _ (invalidate-Succeeds now ids) λ _.
    Succeeds-bind _ _ (Succeeds-gets _)
      λ seen. Succeeds-bind _ _ (associate_none now seen o h) (λ _. deltas-Succeeds now ds)

-- A batch of one outcome that shows no activity is applied where no statement is lost.
pub apply_la_outcome_batch-reliable :
    (o : LaSendOutcome) (w : World)
    → shows_activity o ≡ false
    → IsReliable w
    → (apply_la_outcome_batch (o ∷ []) w).0 ≡ ok tt
unfolding apply_la_outcome_batch
apply_la_outcome_batch-reliable o w h r =
    let s = summarize_la_outcomes (o ∷ []) in
    let (u, v, k, e) =
      (body-Succeeds o s (advance w).clock h).holds (advance w) (advance-IsReliable w r) in
    ap (λ (x : Result (Unit {0}) × World). x.0) (transaction_reliable _ _ _ w v u r k e)
