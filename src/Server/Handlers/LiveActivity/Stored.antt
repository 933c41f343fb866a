-- ===== src/Server/Handlers/LiveActivity/Stored.antt =====
-- The row of a live activity dispatch that was created.
use pushboy.Prelude.{
  ℕ, String, ◌≡◌, refl, sym, subst, ap, Bool, true, false, ◌&&◌, List, [], ◌∷◌, ◌++◌, ◌⊎◌, inl, inr,
  arith, update_where, Error, Result, ok, err, continue, rewrap, pure, wrap, on_error, ◌>>=◌, Gives,
  Preserves-bind, Preserves-on_error, Preserves-pure, if◌then◌else◌,
}
use pushboy.Model.LiveActivity.{queued}
use pushboy.Storage.Tables.{Db, LiveActivityDispatch}
use pushboy.Storage.World.{
  World, advance, settle-ok, statement, statement_at-ok, statement-Preserves,
}
use pushboy.Storage.PushJobs.{required_time}
use pushboy.Storage.LaDispatches.{
  has_id, is_pending, has_la_job, insert_dispatch, create_la_dispatch, mark_la_dispatch_enqueued,
}

abbrev pub HasRow : (LiveActivityDispatch → Type 0) → List LiveActivityDispatch → Type 0
HasRow P [] = ⊥
HasRow P (y ∷ ys) = P y ⊎ HasRow P ys

-- The dispatch as it was created, or marked as queued since.
abbrev pub IsRowOf : LiveActivityDispatch → LiveActivityDispatch → Type 0
IsRowOf x y = (y ≡ x) ⊎ (y ≡ record x { status = queued })

-- The dispatch is in the table, equal in all fields but for the status, and so is a job of its job's id.
abbrev pub IsStored : LiveActivityDispatch → Db → Type 0
IsStored x d = HasRow (IsRowOf x) d.la_dispatches × (has_la_job x.live_activity_job_id d ≡ true)

HasRow-snoc :
    (P : LiveActivityDispatch → Type 0) (ys : List LiveActivityDispatch) (x : LiveActivityDispatch)
    → P x
    → HasRow P (ys ++ x ∷ [])
HasRow-snoc P [] x h = inl h
HasRow-snoc P (y ∷ ys) x h = inr (HasRow-snoc P ys x h)

insert-ok :
    (x : LiveActivityDispatch) (t : ℕ) (d : Db)
    → (insert_dispatch x t d).0 ≡ ok tt
    → (has_la_job x.live_activity_job_id d ≡ true)
      × ((insert_dispatch x t d).1 ≡ record d { la_dispatches = d.la_dispatches ++ x ∷ [] })
insert-ok x t d h = ground arith

insert-IsStored :
    (x : LiveActivityDispatch) (w : World)
    → (statement (insert_dispatch x) w).0 ≡ ok tt
    → IsStored x (statement (insert_dispatch x) w).1.db
unfolding statement
insert-IsStored x w h =
    let same = statement_at-ok (λ (u : World). u.clock) (insert_dispatch x) w h in
    let (done, kept) =
      settle-ok (advance w) (insert_dispatch x (advance w).clock w.db)
        (subst (λ (r : Result (Unit {0}) × World). r.0 ≡ ok tt) same h) in
    let (job, rows) = insert-ok x (advance w).clock w.db done in
    subst (λ (r : Result (Unit {0}) × World). IsStored x r.1.db) (sym same)
      (subst (IsStored x) (sym kept) (
        subst (IsStored x) (sym rows)
          (HasRow-snoc (IsRowOf x) w.db.la_dispatches x (inl refl), job)))

returned :
    (x value : LiveActivityDispatch) (f : Error → Error) (r : Result (Unit {0}) × World)
    → (continue (λ _. pure x) (rewrap f r)).0 ≡ ok value
    → (r.0 ≡ ok tt) × (value ≡ x) × ((continue (λ _. pure x) (rewrap f r)).1 ≡ r.1)
unfolding pure
returned x value f (ok u, w) h = (refl, ground arith, refl)
returned x value f (err e, w) h = absurd (ground arith)

abbrev pub Created : LiveActivityDispatch → LiveActivityDispatch → World → Type 0
Created x value w = (t : ℕ) × (value ≡ record x { created_at = t }) × IsStored value w.db

-- A dispatch that the store gave back is the one that was asked for, at some time, and is in the table.
pub create_la_dispatch-Gives : (x : LiveActivityDispatch) → Gives (Created x) (create_la_dispatch x)
unfolding create_la_dispatch ◌>>=◌ on_error
create_la_dispatch-Gives x = record {
  holds = λ before value h.
      let t = required_time before.clock x.created_at in
      let x' : LiveActivityDispatch = record x { created_at = t } in
      let (done, same, world) =
        returned x' value (wrap "error creating LA dispatch")
          (statement (insert_dispatch x') before) h in
      (
        t,
        same,
        subst (λ (v : World). IsStored value v.db) (sym world)
            (subst
              (λ (y : LiveActivityDispatch).
                IsStored y (statement (insert_dispatch x') before).1.db)
              (sym same) (insert-IsStored x' before done)),
      );
}

-- Marking a dispatch as enqueued removes none.
mark_row :
    (id : String) (x : LiveActivityDispatch) (ys : List LiveActivityDispatch)
    → HasRow (IsRowOf x) ys
    → HasRow (IsRowOf x) (
        update_where
          (λ y. has_id id y && is_pending y.status)
          (λ y. record y { status = queued })
          ys)
mark_row id x [] m = m
mark_row id x (y ∷ ys) (inr m) = inr (mark_row id x ys m)
mark_row id x (y ∷ ys) (inl m) = inl (marked m (has_id id y && is_pending y.status))
  where
    marked : IsRowOf x y → (b : Bool) → IsRowOf x (if b then record y { status = queued } else y)
    marked m false = m
    marked (inl e) true = inr (ap (λ (z : LiveActivityDispatch). record z { status = queued }) e)
    marked (inr e) true = inr (ap (λ (z : LiveActivityDispatch). record z { status = queued }) e)

pub mark-IsStored :
    (id : String) (x : LiveActivityDispatch) (w : World)
    → IsStored x w.db
    → IsStored x (mark_la_dispatch_enqueued id w).1.db
unfolding mark_la_dispatch_enqueued
mark-IsStored id x w h =
    (Preserves-bind _ _
        (Preserves-on_error _ _
          (statement-Preserves (IsStored x) _ (λ t d k. (mark_row id x d.la_dispatches k.0, k.1))))
        (λ _. Preserves-pure _)).holds
      w h
