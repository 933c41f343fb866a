-- ===== src/Storage/LaJobs/Known.antt =====
-- The jobs that the store gives back are in its table.
use pushboy.Prelude.{
  String, ◌≡◌, ◌∙◌, refl, subst, sym, Bool, true, false, ◌⊎◌, inl, inr, ℕ, Option, none, some, List,
  [], ◌∷◌, ◌++◌, ◌==◌, raise, Preserves-gets, update_where, exists, is_some, not, ◌&&◌, select,
  find_first, ltb, Bool-cases, if◌then◌else◌, arith, Error, already_exists, not_found, closed,
  canceled, deadline, panic, driver, duplicate, rejected, message, wrap, opaque_cause, join, Result,
  ok, err, Exec, Gives, Gives-bind, Gives-if, Gives-raise, Gives-attempt, Gives-after, Gives-pure,
  pure_gives, Gives-on_error, Preserves, Preserves-bind, Preserves-if, Preserves-on_error,
  Preserves-pure, Preserves-raise, pure,
}
use pushboy.Storage.Tables.{Db, LiveActivityJob}
use pushboy.Storage.World.{
  World, Sql, advance, settle-ok, statement, statement_at, statement_at-ok, statement-Preserves,
  transaction, transaction-ok,
}
use pushboy.Storage.LaJobs.{
  scanned, read_job, found_la_job, latest, newer, current, insert_la_job, start_new, start_body,
  by_constraint, dated_start, create_or_get_la_start_job, get_la_job_by_activity_id,
  find_la_job_by_user_scope, find_la_job_by_topic_scope, update_la_job_payload_if_active,
  update_not_null, update_jobs,
}

-- A row of that job: the columns that no statement changes are the job's.
abbrev pub IsSameJob : LiveActivityJob → LiveActivityJob → Type 0
IsSameJob job j =
    (j.id ≡ job.id)
    × (j.activity_id ≡ job.activity_id)
    × (j.activity_type ≡ job.activity_type)
    × (j.user_id ≡ job.user_id)
    × (j.topic_id ≡ job.topic_id)

abbrev pub AnyJob : LiveActivityJob → List LiveActivityJob → Type 0
AnyJob job [] = ⊥
AnyJob job (j ∷ js) = IsSameJob job j ⊎ AnyJob job js

abbrev pub HasJob : LiveActivityJob → World → Type 0
HasJob job w = AnyJob job w.db.la_jobs

AnyJob-snoc : (job : LiveActivityJob) (js : List LiveActivityJob) → AnyJob job (js ++ job ∷ [])
AnyJob-snoc job [] = inl (refl, refl, refl, refl, refl)
AnyJob-snoc job (j ∷ js) = inr (AnyJob-snoc job js)

find_first-AnyJob :
    (p : LiveActivityJob → Bool) (js : List LiveActivityJob) (j : LiveActivityJob)
    → find_first p js ≡ some j
    → AnyJob j js
find_first-AnyJob p [] j h = absurd (ground arith)
find_first-AnyJob p (k ∷ ks) j h = elim (Bool-cases (p k)) [
  | inl e ↦
      let same : k ≡ j = ground (arith, e, h) in
      inl (subst (λ x. IsSameJob x k) same (refl, refl, refl, refl, refl))
  | inr e ↦ inr (find_first-AnyJob p ks j (ground (arith, e, h)))
]

latest-AnyJob : (js : List LiveActivityJob) (j : LiveActivityJob) → latest js ≡ some j → AnyJob j js
latest-AnyJob [] j h = absurd (ground arith)
latest-AnyJob (k ∷ ks) j h = go (latest-AnyJob ks) (latest ks) refl h
  where
    go :
        ((x : LiveActivityJob) → latest ks ≡ some x → AnyJob x ks)
        → (o : Option LiveActivityJob) → latest ks ≡ o
        → newer k o ≡ some j
        → AnyJob j (k ∷ ks)
    go later none e h =
        let same : k ≡ j = ground (arith, h) in
        inl (subst (λ (x : LiveActivityJob). IsSameJob x k) same (refl, refl, refl, refl, refl))
    go later (some l) e h = elim (Bool-cases (ltb k.updated_at l.updated_at)) [
      | inl c ↦
          let same : l ≡ j = ground (arith, c, h) in
          inr (later j (subst (λ (x : LiveActivityJob). latest ks ≡ some x) same e))
      | inr c ↦
          let same : k ≡ j = ground (arith, c, h) in
          inl (subst (λ (x : LiveActivityJob). IsSameJob x k) same (refl, refl, refl, refl, refl))
    ]

select-AnyJob :
    (p : LiveActivityJob → Bool) (js : List LiveActivityJob) (j : LiveActivityJob)
    → AnyJob j (select p js)
    → AnyJob j js
select-AnyJob p [] j h = h
select-AnyJob p (k ∷ ks) j h = go (select-AnyJob p ks j) (p k) h
  where
    go :
        (AnyJob j (select p ks) → AnyJob j ks)
        → (b : Bool) → AnyJob j (if b then k ∷ select p ks else select p ks)
        → AnyJob j (k ∷ ks)
    go later true (inl same) = inl same
    go later true (inr m) = inr (later m)
    go later false m = inr (later m)

-- A look-up that finds a job in the table.
abbrev Found : Option LiveActivityJob → World → Type 0
Found o w = (j : LiveActivityJob) → o ≡ some j → HasJob j w

statement-Found :
    (f : ℕ → List LiveActivityJob → Option LiveActivityJob)
    → ((t : ℕ) (js : List LiveActivityJob) (j : LiveActivityJob) → f t js ≡ some j → AnyJob j js)
    → Gives Found (statement (λ now d. (ok (f now d.la_jobs), d)))
unfolding statement
statement-Found f all = record {
  holds = λ w o h j e.
      let q : Sql (Option LiveActivityJob) = λ now d. (ok (f now d.la_jobs), d) in
      let same = statement_at-ok (λ (u : World). u.clock) q w h in
      let first =
        settle-ok (advance w) (q (advance w).clock w.db)
          (subst (λ (r : Result (Option LiveActivityJob) × World). r.0 ≡ ok o) same h) in
      let value : f (advance w).clock w.db.la_jobs ≡ o = ground (arith, first.0) in
      subst (λ (r : Result (Option LiveActivityJob) × World). HasJob j r.1) (sym same)
        (all (advance w).clock w.db.la_jobs j (value ∙ e));
}

found_la_job-Gives :
    (o : Option LiveActivityJob) (s : World) (value : LiveActivityJob)
    → Found o s
    → (found_la_job o s).0 ≡ ok value
    → HasJob value (found_la_job o s).1
unfolding pure raise
found_la_job-Gives none s value k h = absurd (ground arith)
found_la_job-Gives (some j) s value k h =
    let same : scanned j ≡ value = ground (arith, h) in
    subst (λ (x : LiveActivityJob). HasJob x s) same (k j refl)

read_job-Gives :
    (text : String) (f : ℕ → List LiveActivityJob → Option LiveActivityJob)
    → ((t : ℕ) (js : List LiveActivityJob) (j : LiveActivityJob) → f t js ≡ some j → AnyJob j js)
    → Gives HasJob (read_job text f)
read_job-Gives text f all =
    Gives-after Found _ _ (Gives-on_error _ _ (statement-Found f all)) found_la_job-Gives

current-AnyJob :
    (p : LiveActivityJob → Bool) (t : ℕ) (js : List LiveActivityJob) (j : LiveActivityJob)
    → current p t js ≡ some j
    → AnyJob j js
current-AnyJob p t js j h = select-AnyJob _ js j (latest-AnyJob _ j h)

pub get_la_job_by_activity_id-Gives : (id : String) → Gives HasJob (get_la_job_by_activity_id id)
unfolding get_la_job_by_activity_id
get_la_job_by_activity_id-Gives id = read_job-Gives _ _ (λ t js j h. find_first-AnyJob _ js j h)

pub find_user-Gives : (t u : String) → Gives HasJob (find_la_job_by_user_scope t u)
unfolding find_la_job_by_user_scope
find_user-Gives t u = read_job-Gives _ _ (λ t js j h. current-AnyJob _ t js j h)

pub find_topic-Gives : (t u : String) → Gives HasJob (find_la_job_by_topic_scope t u)
unfolding find_la_job_by_topic_scope
find_topic-Gives t u = read_job-Gives _ _ (λ t js j h. current-AnyJob _ t js j h)

-- A job that was created.
abbrev pub Made : LiveActivityJob × Bool → World → Type 0
Made (job, created) w = created ≡ true → HasJob job w

insert_kept :
    (job : LiveActivityJob) (now : ℕ) (d : Db)
    → (insert_la_job job now d).0 ≡ ok tt
    → (insert_la_job job now d).1 ≡ record d { la_jobs = d.la_jobs ++ job ∷ [] }
unfolding insert_la_job
insert_kept job now d h = ground arith

insert-Gives :
    (job : LiveActivityJob) (now : ℕ)
    → Gives (λ _ w. HasJob job w) (statement_at (λ _. now) (insert_la_job job))
insert-Gives job now = record {
  holds = λ w u h.
      let same = statement_at-ok (λ _. now) (insert_la_job job) w h in
      let (done, kept) =
        settle-ok (advance w) (insert_la_job job now w.db)
          (subst (λ (r : Result (Unit {0}) × World). r.0 ≡ ok tt) same h) in
      subst (λ (r : Result (Unit {0}) × World). HasJob job r.1) (sym same)
        (subst (λ (d : Db). AnyJob job d.la_jobs) (sym (kept ∙ insert_kept job now w.db done))
          (AnyJob-snoc job w.db.la_jobs));
}

start_new-Gives :
    (now : ℕ) (job : LiveActivityJob) (o : Option LiveActivityJob)
    → Gives Made (start_new now job o)
start_new-Gives now job (some existing) = Gives-pure _ _ (λ s c. absurd (ground (arith, c)))
start_new-Gives now job none = Gives-bind _ _ λ _.
    Gives-after (λ _ w. HasJob job w) _ _ (insert-Gives job now)
      (λ u s value k h. pure_gives Made (job, true) s value (λ _. k) h)

start_body-Gives : (job : LiveActivityJob) (now : ℕ) → Gives Made (start_body job now)
start_body-Gives job now =
    Gives-bind _ _ λ _. Gives-bind _ _ λ _. Gives-bind _ _ λ o. start_new-Gives now job o

by_constraint-Gives : (job : LiveActivityJob) (e : Error) → Gives Made (by_constraint job (err e))
by_constraint-Gives job (duplicate name) =
    Gives-if (name == "idx_live_activity_jobs_activity_id") _ _
      (Gives-bind (get_la_job_by_activity_id job.activity_id) _ not_made)
      (Gives-if (name == "idx_live_activity_jobs_active_user") _ _
        (Gives-bind (find_la_job_by_user_scope job.activity_type job.user_id) _ not_made)
        (Gives-if (name == "idx_live_activity_jobs_active_topic") _ _
          (Gives-bind (find_la_job_by_topic_scope job.activity_type job.topic_id) _ not_made)
          (Gives-raise (wrap "error creating LA start job" (duplicate name)))))
  where
    not_made : (j : LiveActivityJob) → Gives Made (pure {S = World} (j, false))
    not_made j = Gives-pure _ _ (λ s c. absurd (ground (arith, c)))
by_constraint-Gives job (rejected name) = Gives-raise _
by_constraint-Gives job driver = Gives-raise _
by_constraint-Gives job already_exists = Gives-raise _
by_constraint-Gives job not_found = Gives-raise _
by_constraint-Gives job closed = Gives-raise _
by_constraint-Gives job canceled = Gives-raise _
by_constraint-Gives job deadline = Gives-raise _
by_constraint-Gives job panic = Gives-raise _
by_constraint-Gives job (message text) = Gives-raise _
by_constraint-Gives job (wrap text e) = Gives-raise _
by_constraint-Gives job (opaque_cause text e) = Gives-raise _
by_constraint-Gives job (join a b) = Gives-raise _

transaction-Gives :
    (f g : Error → Error) (body : ℕ → Exec World (LiveActivityJob × Bool))
    → ((t : ℕ) → Gives Made (body t))
    → Gives Made (transaction f g body)
transaction-Gives f g body all = record {
  holds = λ w value h.
      let (done, same) = transaction-ok f g body w h in
      λ c.
        subst (λ (d : Db). AnyJob value.0 d.la_jobs) (sym same)
          ((all (advance w).clock).holds (advance w) value done c);
}

-- A job that a start has created is in the table.
pub create_or_get_la_start_job-Gives :
    (job : LiveActivityJob) → Gives Made (create_or_get_la_start_job job)
unfolding create_or_get_la_start_job
create_or_get_la_start_job-Gives job = Gives-bind _ _ λ clock.
    Gives-attempt Made _ _ (transaction-Gives _ _ _ (start_body-Gives (dated_start clock job)))
      (λ a s value k h. pure_gives Made a s value k h) (by_constraint-Gives (dated_start clock job))

AnyJob-update_where :
    (job : LiveActivityJob) (p : LiveActivityJob → Bool) (f : LiveActivityJob → LiveActivityJob)
    (js : List LiveActivityJob)
    → ((x : LiveActivityJob) → IsSameJob job x → IsSameJob job (f x))
    → AnyJob job js
    → AnyJob job (update_where p f js)
AnyJob-update_where job p f [] k h = h
AnyJob-update_where job p f (x ∷ xs) k (inr m) = inr (AnyJob-update_where job p f xs k m)
AnyJob-update_where job p f (x ∷ xs) k (inl m) = inl (changed (p x))
  where
    changed : (b : Bool) → IsSameJob job (if b then f x else x)
    changed true = k x m
    changed false = m

update_text :
    (job : LiveActivityJob) (column : String) (value : Option String)
    (p : ℕ → LiveActivityJob → Bool) (f : ℕ → LiveActivityJob → LiveActivityJob)
    → ((t : ℕ) (x : LiveActivityJob) → IsSameJob job x → IsSameJob job (f t x))
    → (t : ℕ) (d : Db) → AnyJob job d.la_jobs
    → AnyJob job (update_not_null column value p f t d).1.la_jobs
update_text job column value p f k t d h = go (exists (p t) d.la_jobs && not (is_some value))
  where
    go :
        (b : Bool)
        → AnyJob job (if b then (err (rejected column), d) else update_jobs p f t d).1.la_jobs
    go true = h
    go false = AnyJob-update_where job (p t) (f t) d.la_jobs (k t) h

-- An update of a job's payload keeps the job.
pub update_payload-HasJob :
    (job : LiveActivityJob) (id : String) (payload options : Option String) (t : ℕ)
    → Preserves (HasJob job) (update_la_job_payload_if_active id payload options t)
unfolding update_la_job_payload_if_active
update_payload-HasJob job id payload options t = Preserves-bind _ _ (Preserves-gets _) λ clock.
    Preserves-bind _ _
      (Preserves-on_error _ _ (
        statement-Preserves (λ (d : Db). AnyJob job d.la_jobs) _
          (update_text job "latest_payload" payload _ _ (λ t x m. m))))
      (λ n. Preserves-if _ _ _ (Preserves-pure _) (Preserves-raise _))
