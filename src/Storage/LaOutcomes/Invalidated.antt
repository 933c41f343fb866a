-- ===== src/Storage/LaOutcomes/Invalidated.antt =====
-- The tokens that a batch of outcomes invalidates.
use pushboy.Prelude.{
  ℕ, String, ◌≡◌, refl, sym, subst, true, ◌&&◌, not, none, some, Option, List, [], ◌∷◌, arith, ◌==◌,
  exists, update_where, is_some, Error, Result, ok, err, ◌>>=◌, ◌>>◌, on_error, gets, Preserves,
  Preserves-bind, Preserves-on_error, Preserves-pure, Preserves-gets, Preserves-if, Preserves-raise,
  rewrap, bind-ok, ap,
}
use pushboy.Model.Task.{LaSendOutcome}
use pushboy.Storage.Tables.{Db, LiveActivityToken, LiveActivityDispatch}
use pushboy.Storage.World.{World, statement_at-ok, statement_at-Preserves, transaction-ok, advance}
use pushboy.Storage.Outcome.{Deltas}
use pushboy.Storage.LaOutcomes.{
  invalidate_la_tokens_tx, associate_live_activity_token_tx, associate_all,
  apply_la_outcome_deltas_tx, apply_la_outcome_batch, summarize_la_outcomes, upsert_activity,
  shows_activity, la_outcome_body,
}
use pushboy.Storage.LaDispatches.{
  complete_la_dispatch_if_ready_tx, close_after, close_la_job_after_end_dispatch_tx,
}

abbrev pub AllInvalid : String → List LiveActivityToken → Type 0
AllInvalid id [] = Unit {0}
AllInvalid id (x ∷ xs) = ((id == x.id) ≡ true → is_some x.invalidated_at ≡ true) × AllInvalid id xs

-- Every row of that token, and so no valid one, has a time at which it was invalidated.
abbrev pub IsInvalidated : String → Db → Type 0
IsInvalidated id d = AllInvalid id d.la_tokens

update-AllInvalid :
    (id : String) (t : ℕ) (xs : List LiveActivityToken)
    → AllInvalid id (
        update_where
          (λ (x : LiveActivityToken).
            exists (λ (i : String). i == x.id) (id ∷ []) && not (is_some x.invalidated_at))
          (λ x. record x { invalidated_at = some t })
          xs)
update-AllInvalid id t [] = tt
update-AllInvalid id t (x ∷ xs) = (ground arith, update-AllInvalid id t xs)

upsert_activity-IsInvalidated :
    (id activity token : String) (seen t : ℕ) (d : Db)
    → IsInvalidated id d
    → IsInvalidated id (upsert_activity activity token seen t d).1
upsert_activity-IsInvalidated id activity token seen t d h = ground arith

associate-Preserves :
    (id activity token : String) (now seen : ℕ)
    → Preserves
        (λ (w : World). IsInvalidated id w.db)
        (associate_live_activity_token_tx now activity token seen)
unfolding associate_live_activity_token_tx
associate-Preserves id activity token now seen =
    Preserves-bind _ _ (Preserves-if _ _ _ (Preserves-pure _) (Preserves-raise _)) λ _.
      Preserves-bind _ _ (Preserves-if _ _ _ (Preserves-pure _) (Preserves-raise _)) λ _.
        Preserves-on_error _ _ (
          statement_at-Preserves (IsInvalidated id) (λ _. now) (upsert_activity activity token seen)
            (λ t d h. upsert_activity-IsInvalidated id activity token seen t d h))

associate_all-Preserves :
    (id : String) (now seen : ℕ) (os : List LaSendOutcome)
    → Preserves (λ (w : World). IsInvalidated id w.db) (associate_all now seen os)
unfolding associate_all
associate_all-Preserves id now seen [] = Preserves-pure _
associate_all-Preserves id now seen (o ∷ os) =
    Preserves-if (shows_activity o) _ _
      (Preserves-bind _ _ (associate-Preserves id _ _ now seen)
        (λ _. associate_all-Preserves id now seen os))
      (associate_all-Preserves id now seen os)

close-Preserves :
    (id : String) (now : ℕ) (found : Option LiveActivityDispatch)
    → Preserves (λ (w : World). IsInvalidated id w.db) (close_after now found)
unfolding close_la_job_after_end_dispatch_tx
close-Preserves id now none = Preserves-pure _
close-Preserves id now (some x) =
    Preserves-if _ _ _
      (Preserves-bind _ _
        (Preserves-on_error _ _ (statement_at-Preserves (IsInvalidated id) _ _ (λ t d h. h)))
        (λ _. Preserves-pure _))
      (Preserves-pure _)

deltas-Preserves :
    (id : String) (now : ℕ) (ds : Deltas)
    → Preserves (λ (w : World). IsInvalidated id w.db) (apply_la_outcome_deltas_tx now ds)
unfolding apply_la_outcome_deltas_tx complete_la_dispatch_if_ready_tx
deltas-Preserves id now [] = Preserves-pure _
deltas-Preserves id now ((i, delta) ∷ ds) =
    Preserves-bind _ _
      (Preserves-on_error _ _ (statement_at-Preserves (IsInvalidated id) _ _ (λ t d h. h)))
      λ _.
        Preserves-bind _ _
          (Preserves-bind _ _
            (Preserves-on_error _ _ (statement_at-Preserves (IsInvalidated id) _ _ (λ t d h. h)))
            (close-Preserves id now))
          (λ _. deltas-Preserves id now ds)

-- What follows the invalidation in the transaction.
rest-Preserves :
    (id : String) (now : ℕ) (os : List LaSendOutcome) (ds : Deltas)
    → Preserves
        (λ (w : World). IsInvalidated id w.db)
        (gets (λ (w : World). w.clock) >>= λ seen.
          associate_all now seen os >> apply_la_outcome_deltas_tx now ds)
rest-Preserves id now os ds = Preserves-bind _ _ (Preserves-gets _) λ seen.
    Preserves-bind _ _ (associate_all-Preserves id now seen os) (λ _. deltas-Preserves id now ds)

rewrap-ok :
    (f : Error → Error) (r : Result (Unit {0}) × World)
    → (rewrap f r).0 ≡ ok tt
    → (r.0 ≡ ok tt) × ((rewrap f r).1 ≡ r.1)
rewrap-ok f (ok u, w) h = (refl, refl)
rewrap-ok f (err e, w) h = absurd (ground arith)

invalidate-ok :
    (id : String) (now : ℕ) (w : World)
    → (invalidate_la_tokens_tx now (id ∷ []) w).0 ≡ ok tt
    → IsInvalidated id (invalidate_la_tokens_tx now (id ∷ []) w).1.db
unfolding invalidate_la_tokens_tx on_error
invalidate-ok id now w h =
    let (done, same) = rewrap-ok _ _ h in
    subst (λ (v : World). IsInvalidated id v.db) (sym same)
      (subst (λ (r : Result (Unit {0}) × World). IsInvalidated id r.1.db)
        (sym (statement_at-ok (λ (u : World). now) _ w done))
        (update-AllInvalid id now w.db.la_tokens))

body-IsInvalidated :
    (os : List LaSendOutcome) (ds : Deltas) (id : String) (now : ℕ) (w : World)
    → (la_outcome_body os (ds, id ∷ []) now w).0 ≡ ok tt
    → IsInvalidated id (la_outcome_body os (ds, id ∷ []) now w).1.db
body-IsInvalidated os ds id now w h =
    let (u, w', first, rest) =
      bind-ok (invalidate_la_tokens_tx now (id ∷ []))
        (λ _. gets (λ (w : World). w.clock) >>= λ seen.
          associate_all now seen os >> apply_la_outcome_deltas_tx now ds)
        w h in
    subst (λ (r : Result (Unit {0}) × World). IsInvalidated id r.1.db) (sym rest)
      ((rest-Preserves id now os ds).holds w' (
        subst (λ (r : Result (Unit {0}) × World). IsInvalidated id r.1.db) first
          (invalidate-ok id now w (ap (λ (r : Result (Unit {0}) × World). r.0) first))))

-- A batch of one outcome whose summary names a token, once it is applied.
pub apply_la_outcome_batch-IsInvalidated :
    (o : LaSendOutcome) (id : String) (w : World)
    → (summarize_la_outcomes (o ∷ [])).1 ≡ id ∷ []
    → (apply_la_outcome_batch (o ∷ []) w).0 ≡ ok tt
    → IsInvalidated id (apply_la_outcome_batch (o ∷ []) w).1.db
unfolding apply_la_outcome_batch
apply_la_outcome_batch-IsInvalidated o id w named done =
    let ds = (summarize_la_outcomes (o ∷ [])).0 in
    let (body, same) = transaction-ok _ _ _ w done in
    subst (IsInvalidated id) (sym same) (
      subst
        (λ (ids : List String).
          (la_outcome_body (o ∷ []) (ds, ids) (advance w).clock (advance w)).0 ≡ ok tt
          → IsInvalidated id
              (la_outcome_body (o ∷ []) (ds, ids) (advance w).clock (advance w)).1.db)
        (sym named) (body-IsInvalidated (o ∷ []) ds id (advance w).clock (advance w)) body)
