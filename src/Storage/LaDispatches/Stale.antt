-- ===== src/Storage/LaDispatches/Stale.antt =====
-- When a dispatch is superseded: in terms of rows, and not of the text of the statement.
use pushboy.Prelude.{
  ℕ, String, ◌≡◌, ◌<◌, refl, sym, ap, ◌∙◌, Bool, true, ◌&&◌, not, List, [], ◌∷◌, arith, ltb, ◌==◌,
  eqb, exists, count_if, update_where, some, ◌⊎◌, inl, inr, Bool-cases, if◌then◌else◌, eq_iff, ok,
  on_error, ◌>>=◌, eq_refl,
}
use pushboy.Model.LiveActivity.{
  LiveActivityAction, LiveActivityDispatchStatus, queued, in_progress, dispatched, completed,
  superseded,
}
use pushboy.Storage.Tables.{Db, LiveActivityDispatch}
use pushboy.Storage.World.{World, IsReliable, advance, statement_reliable}
use pushboy.Storage.LaDispatches.{
  is_update, is_waiting, is_under_way, has_newer, is_stale, supersede_row,
  supersede_la_dispatch_if_stale, update_dispatches,
}

abbrev pub Holds : LiveActivityDispatch → List LiveActivityDispatch → Type 0
Holds x [] = ⊥
Holds x (y ∷ ys) = (x ≡ y) ⊎ Holds x ys

abbrev IsWaiting : LiveActivityDispatchStatus → Type 0
IsWaiting st = (st ≡ queued) ⊎ (st ≡ in_progress)

abbrev IsUnderWay : LiveActivityDispatchStatus → Type 0
IsUnderWay st = (IsWaiting st) ⊎ ((st ≡ dispatched) ⊎ (st ≡ completed))

-- A later update of the same activity, which is under way.
abbrev IsLater : LiveActivityDispatch → LiveActivityDispatch → Type 0
IsLater x y =
    (y.live_activity_job_id ≡ x.live_activity_job_id)
    × (y.action ≡ LiveActivityAction.update)
    × (x.created_at < y.created_at)
    × IsUnderWay y.status

-- An update that waits, while a later one in the table is under way.
abbrev pub IsOvertaken : Db → LiveActivityDispatch → Type 0
IsOvertaken d x =
    (x.action ≡ LiveActivityAction.update)
    × IsWaiting x.status
    × (y : LiveActivityDispatch) × Holds y d.la_dispatches
    × IsLater x y

abbrev IsToMark : String → Db → LiveActivityDispatch → Type 0
IsToMark id d x = (x.id ≡ id) × IsOvertaken d x

action_of : (a : LiveActivityAction) → is_update a ≡ true → a ≡ LiveActivityAction.update
action_of LiveActivityAction.start h = absurd (ground arith)
action_of LiveActivityAction.update h = refl
action_of LiveActivityAction.finish h = absurd (ground arith)

is_waiting-IsWaiting : (st : LiveActivityDispatchStatus) → is_waiting st ≡ true → IsWaiting st
is_waiting-IsWaiting queued h = inl refl
is_waiting-IsWaiting in_progress h = inr refl
is_waiting-IsWaiting _ h = absurd (ground arith)

waiting_is : (st : LiveActivityDispatchStatus) → IsWaiting st → is_waiting st ≡ true
waiting_is st (inl e) = rw e refl
waiting_is st (inr e) = rw e refl

is_under_way-IsUnderWay : (st : LiveActivityDispatchStatus) → is_under_way st ≡ true → IsUnderWay st
is_under_way-IsUnderWay queued h = inl (inl refl)
is_under_way-IsUnderWay in_progress h = inl (inr refl)
is_under_way-IsUnderWay dispatched h = inr (inl refl)
is_under_way-IsUnderWay completed h = inr (inr refl)
is_under_way-IsUnderWay _ h = absurd (ground arith)

under_way_is : (st : LiveActivityDispatchStatus) → IsUnderWay st → is_under_way st ≡ true
under_way_is st (inl (inl e)) = rw e refl
under_way_is st (inl (inr e)) = rw e refl
under_way_is st (inr (inl e)) = rw e refl
under_way_is st (inr (inr e)) = rw e refl

and_all :
    (a b c e : Bool) → (a && b && c && e) ≡ true → (a ≡ true) × (b ≡ true) × (c ≡ true) × (e ≡ true)
and_all a b c e h = (ground arith, ground arith, ground arith, ground arith)

same_text : {a b : String} → (a == b) ≡ true → a ≡ b
same_text {a} {b} h = (eq_iff a b).0 h

later_is :
    (x y : LiveActivityDispatch)
    → IsLater x y
    → (y.live_activity_job_id == x.live_activity_job_id
        && is_update y.action
        && ltb x.created_at y.created_at
        && is_under_way y.status)
      ≡ true
later_is x y (job, action, time, st) = ground (
  arith,
  ap is_update action,
  under_way_is y.status st,
  ap (λ (i : String). i == x.live_activity_job_id) job,
  eq_refl x.live_activity_job_id,
)

ltb-IsLater :
    (x y : LiveActivityDispatch)
    → (y.live_activity_job_id == x.live_activity_job_id
        && is_update y.action
        && ltb x.created_at y.created_at
        && is_under_way y.status)
      ≡ true
    → IsLater x y
ltb-IsLater x y h =
    let (job, action, time, st) = and_all _ _ _ _ h in
    (same_text job, action_of y.action action, ground arith, is_under_way-IsUnderWay y.status st)

exists-Holds :
    (p : LiveActivityDispatch → Bool) (ys : List LiveActivityDispatch)
    → exists p ys ≡ true
    → (y : LiveActivityDispatch) × Holds y ys × (p y ≡ true)
exists-Holds p [] h = absurd (ground arith)
exists-Holds p (y ∷ ys) h = elim (Bool-cases (p y)) [
  | inl e ↦ (y, inl refl, e)
  | inr e ↦ let (z, m, k) = exists-Holds p ys (ground arith) in (z, inr m, k)
]

Holds-exists :
    (p : LiveActivityDispatch → Bool) (y : LiveActivityDispatch) (ys : List LiveActivityDispatch)
    → Holds y ys
    → p y ≡ true
    → exists p ys ≡ true
Holds-exists p y [] m h = elim m [ ]
Holds-exists p y (z ∷ zs) (inl e) h = ground (arith, ap p (sym e) ∙ h)
Holds-exists p y (z ∷ zs) (inr m) h = ground (arith, Holds-exists p y zs m h)

newer_of :
    (d : Db) (x : LiveActivityDispatch)
    → has_newer d x ≡ true
    → (y : LiveActivityDispatch) × Holds y d.la_dispatches × IsLater x y
newer_of d x h = let (y, m, k) = exists-Holds _ d.la_dispatches h in (y, m, ltb-IsLater x y k)

newer_is :
    (d : Db) (x y : LiveActivityDispatch)
    → Holds y d.la_dispatches
    → IsLater x y
    → has_newer d x ≡ true
newer_is d x y m l = Holds-exists _ y d.la_dispatches m (later_is x y l)

stale_of :
    (id : String) (d : Db) (x : LiveActivityDispatch) → is_stale id d x ≡ true → IsToMark id d x
stale_of id d x h =
    let (i, a, st, n) = and_all _ _ _ _ h in
    let (y, m, l) = newer_of d x n in
    (same_text i, (action_of x.action a, is_waiting-IsWaiting x.status st, y, m, l))

stale_is :
    (id : String) (d : Db) (x : LiveActivityDispatch) → IsToMark id d x → is_stale id d x ≡ true
stale_is id d x (i, (a, st, y, m, l)) = ground (
  arith,
  ap (λ (t : String). t == id) i,
  eq_refl id,
  ap is_update a,
  waiting_is x.status st,
  newer_is d x y m l,
)

-- A row before and after: it is marked where it has that id and is overtaken, and else as it was.
abbrev IsMarked : String → ℕ → ℕ → Db → LiveActivityDispatch → LiveActivityDispatch → Type 0
IsMarked id emitted t d x x' =
    (IsToMark id d x
      × (x' ≡ record x { status = superseded; completed_at = some t; total_count = emitted }))
    ⊎ ((IsToMark id d x → ⊥) × (x' ≡ x))

abbrev pub AllMarked :
    String → ℕ → ℕ → Db → List LiveActivityDispatch → List LiveActivityDispatch → Type 0
AllMarked id emitted t d [] [] = Unit {0}
AllMarked id emitted t d (x ∷ xs) (x' ∷ xs') =
    IsMarked id emitted t d x x' × AllMarked id emitted t d xs xs'
AllMarked id emitted t d _ _ = ⊥

mark_one :
    (id : String) (emitted t : ℕ) (d : Db) (x : LiveActivityDispatch)
    → IsMarked id emitted t d x (if is_stale id d x then supersede_row emitted t x else x)
unfolding supersede_row
mark_one id emitted t d x = elim (Bool-cases (is_stale id d x)) [
  | inl e ↦ rw e (inl (stale_of id d x e, refl))
  | inr e ↦ rw e (inr (λ m. absurd (ground (arith, stale_is id d x m)), refl))
]

pub update-AllMarked :
    (id : String) (emitted t : ℕ) (d : Db) (xs : List LiveActivityDispatch)
    → AllMarked id emitted t d xs (update_where (is_stale id d) (supersede_row emitted t) xs)
update-AllMarked id emitted t d [] = tt
update-AllMarked id emitted t d (x ∷ xs) =
    (mark_one id emitted t d x, update-AllMarked id emitted t d xs)

count_if-exists :
    (p : LiveActivityDispatch → Bool) (xs : List LiveActivityDispatch)
    → not (eqb (count_if p xs) 0) ≡ exists p xs
count_if-exists p [] = refl
count_if-exists p (x ∷ xs) = ground (arith, count_if-exists p xs)

pub supersede_runs :
    (id : String) (emitted : ℕ) (w : World)
    → IsReliable w
    → supersede_la_dispatch_if_stale id emitted w ≡ (
      ok (exists (is_stale id w.db) w.db.la_dispatches),
      record (advance w) {
        db = record w.db {
          la_dispatches =
              update_where
                (is_stale id w.db)
                (supersede_row emitted (advance w).clock)
                w.db.la_dispatches;
        };
      },
    )
unfolding supersede_la_dispatch_if_stale on_error ◌>>=◌
supersede_runs id emitted w r =
    rw
      (
        statement_reliable (update_dispatches (is_stale id) (supersede_row emitted)) w r,
        count_if-exists (is_stale id w.db) w.db.la_dispatches,
      )
      refl

pub stale_exists :
    (id : String) (d : Db) (x : LiveActivityDispatch)
    → Holds x d.la_dispatches
    → x.id ≡ id
    → IsOvertaken d x
    → exists (is_stale id d) d.la_dispatches ≡ true
stale_exists id d x m i o = Holds-exists _ x d.la_dispatches m (stale_is id d x (i, o))

-- Where no statement is lost, a call marks exactly the rows of its id that are updates, that wait and
-- that a later update of the same activity in the table has overtaken, one that is under way; every
-- other row, and every other table, stays as it is; and the call returns true exactly where there is
-- such a row.
pub supersede_la_dispatch_if_stale_lem :
    (id : String) (emitted : ℕ) (w : World)
    → IsReliable w
    → let r = supersede_la_dispatch_if_stale id emitted w in
      (b : Bool) × (r.0 ≡ ok b)
      × (b ≡ true
          → (x : LiveActivityDispatch) × Holds x w.db.la_dispatches
            × (x.id ≡ id)
            × IsOvertaken w.db x)
      × ((x : LiveActivityDispatch)
          → Holds x w.db.la_dispatches
          → x.id ≡ id
          → IsOvertaken w.db x
          → b ≡ true)
      × AllMarked id emitted (advance w).clock w.db w.db.la_dispatches r.1.db.la_dispatches
      × (r.1.db ≡ record w.db { la_dispatches = r.1.db.la_dispatches })
supersede_la_dispatch_if_stale_lem id emitted w r = rw (supersede_runs id emitted w r) (
  exists (is_stale id w.db) w.db.la_dispatches,
  refl,
  λ h.
      let (x, m, k) = exists-Holds _ w.db.la_dispatches h in
      let (i, o) = stale_of id w.db x k in (x, m, i, o),
  λ x m i o. stale_exists id w.db x m i o,
  update-AllMarked id emitted (advance w).clock w.db w.db.la_dispatches,
  refl,
)
