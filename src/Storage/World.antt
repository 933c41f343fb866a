-- ===== src/Storage/World.antt =====
-- The database server as the program meets it: tables, a clock and a script of what happens to each
-- statement. A statement reads the time after it was sent; it fails if the script says so, and
-- then changes nothing. Where the script has run out, statements succeed at once.
use pushboy.Prelude.{
  ℕ, ◌+◌, ◌≡◌, refl, Bool, false, List, [], ◌∷◌, All, Error, driver, Result, ok, err, arith,
  if◌then◌else◌, Bool-cases, inl, inr, Preserves, subst, sym,
}
use pushboy.Storage.Tables.{Db}

pub record Tick : Type 0 where
  pub fails : Bool
  pub elapsed : ℕ

pub record World : Type 0 where
  pub db : Db
  pub clock : ℕ
  pub script : List Tick

abbrev pub fails_of : List Tick → Bool
fails_of [] = false
fails_of (t ∷ ts) = t.fails

abbrev elapsed_of : List Tick → ℕ
elapsed_of [] = 0
elapsed_of (t ∷ ts) = t.elapsed

abbrev rest_of : List Tick → List Tick
rest_of [] = []
rest_of (t ∷ ts) = ts

-- The world once the next statement has been sent.
abbrev pub advance : World → World
advance w = record w { clock = w.clock + elapsed_of w.script; script = rest_of w.script }

-- What one statement does at a time: a value and the new tables, or an error and no change.
abbrev pub Sql {ℓ} : Type ℓ → Type ℓ
Sql A = ℕ → Db → Result A × Db

module _ {ℓ} {A : Type ℓ} where
  abbrev pub settle : World → Result A × Db → Result A × World
  settle w (ok a, d) = (ok a, record w { db = d })
  settle w (err e, d) = (err e, w)

  -- `ExecContext` and `QueryContext`; in a transaction `NOW()` is the time at which it began.
  unfoldable pub statement_at : (World → ℕ) → Sql A → World → Result A × World
  statement_at now q w =
      let w' = advance w in
      if fails_of w.script then (err driver, w') else settle w' (q (now w') w'.db)

  unfoldable pub statement : Sql A → World → Result A × World
  unfolding statement_at
  statement = statement_at (λ w. w.clock)

-- BEGIN and COMMIT.
abbrev pub no_change : Sql (Unit {0})
no_change now d = (ok tt, d)

module _ {ℓ} {A : Type ℓ} where
  -- COMMIT: one that fails is taken to have changed nothing.
  abbrev commit : Db → (Error → Error) → A → Result (Unit {0}) × World → Result A × World
  commit before f a (ok _, w) = (ok a, w)
  commit before f a (err e, w) = (err (f e), record w { db = before })

  -- The deferred ROLLBACK, where the body returned an error.
  abbrev end_transaction : Db → (Error → Error) → Result A × World → Result A × World
  end_transaction before f (err e, w) = (err e, record w { db = before })
  end_transaction before f (ok a, w) = commit before f a (statement no_change w)

  abbrev run_body :
      (Error → Error)
      → (Error → Error)
      → (ℕ → World → Result A × World)
      → Result (Unit {0}) × World
      → Result A × World
  run_body f g body (err e, w) = (err (f e), w)
  run_body f g body (ok _, w) = end_transaction w.db g (body w.clock w)

  -- BEGIN, the body with the time of the BEGIN, COMMIT; `f` and `g` wrap the errors of the first and
  -- the last.
  unfoldable pub transaction :
      (Error → Error) → (Error → Error) → (ℕ → World → Result A × World) → World → Result A × World
  unfolding statement
  transaction f g body w = run_body f g body (statement no_change w)

  end_transaction_atomic :
      (before : Db) (g : Error → Error) (r : Result A × World) (e : Error)
      → (end_transaction before g r).0 ≡ err e
      → (end_transaction before g r).1.db ≡ before
  unfolding statement
  end_transaction_atomic before g (err x, w) e h = refl
  end_transaction_atomic before g (ok a, w) e h = ground arith

  -- A transaction that returns an error has changed no table.
  pub transaction_atomic :
      (f g : Error → Error) (body : ℕ → World → Result A × World) (w : World) (e : Error)
      → (transaction f g body w).0 ≡ err e
      → (transaction f g body w).1.db ≡ w.db
  unfolding transaction
  transaction_atomic f g body w e h =
      ground (arith, end_transaction_atomic w.db g (body w.clock w) e)

-- No statement of the script fails.
abbrev pub IsReliable : World → Type 0
IsReliable w = All (λ (t : Tick). t.fails ≡ false) w.script

pub advance-IsReliable : (w : World) → IsReliable w → IsReliable (advance w)
advance-IsReliable w h = go w.script h
  where
    go :
        (ts : List Tick)
        → All (λ (t : Tick). t.fails ≡ false) ts
        → All (λ (t : Tick). t.fails ≡ false) (rest_of ts)
    go [] h = tt
    go (t ∷ ts) h = h.1

pub fails_of_reliable :
    (ts : List Tick) → All (λ (t : Tick). t.fails ≡ false) ts → fails_of ts ≡ false
fails_of_reliable [] h = refl
fails_of_reliable (t ∷ ts) h = h.0

module _ {ℓ} {A : Type ℓ} where
  commit-ok :
      (before : Db) (g : Error → Error) (r : Result A × World) {a : A}
      → (end_transaction before g r).0 ≡ ok a
      → (r.0 ≡ ok a) × ((end_transaction before g r).1.db ≡ r.1.db)
  unfolding statement
  commit-ok before g (err e, w) h = cc
  commit-ok before g (ok a, w) h = ground arith

  -- A statement that is not lost does to the tables what its text says.
  pub statement_at_reliable :
      (now : World → ℕ) (q : Sql A) (w : World)
      → IsReliable w
      → statement_at now q w ≡ settle (advance w) (q (now (advance w)) w.db)
  unfolding statement_at
  statement_at_reliable now q w h = rw (fails_of_reliable w.script h)

  pub settle-ok :
      (w : World) (r : Result A × Db) {a : A}
      → (settle w r).0 ≡ ok a
      → (r.0 ≡ ok a) × ((settle w r).1.db ≡ r.1)
  settle-ok w (ok b, d) h = (h, refl)
  settle-ok w (err e, d) h = cc

  -- So does one that returns a value.
  pub statement_at-ok :
      (now : World → ℕ) (q : Sql A) (w : World) {a : A}
      → (statement_at now q w).0 ≡ ok a
      → statement_at now q w ≡ settle (advance w) (q (now (advance w)) w.db)
  unfolding statement_at
  statement_at-ok now q w h = ground arith

  -- So is a transaction: its body ran on the tables, and they are kept.
  pub transaction-ok :
      (f g : Error → Error) (body : ℕ → World → Result A × World) (w : World) {a : A}
      → (transaction f g body w).0 ≡ ok a
      → let r = body (advance w).clock (advance w) in
        (r.0 ≡ ok a) × ((transaction f g body w).1.db ≡ r.1.db)
  unfolding transaction
  transaction-ok f g body w h =
      ground (arith, commit-ok w.db g (body (advance w).clock (advance w)))

  settle-keeps {κ} :
      (P : Db → Type κ) (w : World) (r : Result A × Db) → P w.db → P r.1 → P (settle w r).1.db
  settle-keeps P w (ok a, d) h k = k
  settle-keeps P w (err e, d) h k = h

  -- What a statement's text keeps, the statement keeps.
  pub statement_at-keeps {κ} :
      (P : Db → Type κ) (now : World → ℕ) (q : Sql A) (w : World)
      → P w.db
      → P (q (now (advance w)) w.db).1
      → P (statement_at now q w).1.db
  unfolding statement_at
  statement_at-keeps P now q w h k = elim (Bool-cases (fails_of w.script)) [
    | inl e ↦ rw e h
    | inr e ↦ rw e (settle-keeps P (advance w) (q (now (advance w)) w.db) h k)
  ]

module _ {ℓ} {A : Type ℓ} where
  pub statement_reliable :
      (q : Sql A) (w : World)
      → IsReliable w
      → statement q w ≡ settle (advance w) (q (advance w).clock w.db)
  unfolding statement
  statement_reliable q w h = statement_at_reliable (λ w. w.clock) q w h

  -- A transaction whose body succeeds and that loses no statement does what its body does.
  pub transaction_reliable :
      (f g : Error → Error) (body : ℕ → World → Result A × World) (w v : World) (a : A)
      → IsReliable w
      → IsReliable v
      → body (advance w).clock (advance w) ≡ (ok a, v)
      → transaction f g body w ≡ (ok a, advance v)
  unfolding transaction
  transaction_reliable f g body w v a h k e =
      rw
        (
          statement_at_reliable (λ (u : World). u.clock) no_change w h,
          e,
          statement_at_reliable (λ (u : World). u.clock) no_change v k,
        )
        refl

  -- One whose body fails gives the body's error and keeps the tables.
  pub transaction_failing :
      (f g : Error → Error) (body : ℕ → World → Result A × World) (w v : World) (e : Error)
      → IsReliable w
      → body (advance w).clock (advance w) ≡ (err e, v)
      → transaction f g body w ≡ (err e, record v { db = w.db })
  unfolding transaction
  transaction_failing f g body w v e h k =
      rw (statement_at_reliable (λ (u : World). u.clock) no_change w h, k) refl

-- The same as rules of `Preserves`.
module _ {A : Type 0} (P : Db → Type 0) where
  pub statement_at-Preserves :
      (now : World → ℕ) (q : Sql A)
      → ((t : ℕ) (d : Db) → P d → P (q t d).1)
      → Preserves (λ w. P w.db) (statement_at now q)
  statement_at-Preserves now q k = record {
    holds = λ w h. statement_at-keeps P now q w h (k (now (advance w)) w.db h);
  }

  pub statement-Preserves :
      (q : Sql A) → ((t : ℕ) (d : Db) → P d → P (q t d).1) → Preserves (λ w. P w.db) (statement q)
  unfolding statement
  statement-Preserves q k = statement_at-Preserves (λ w. w.clock) q k

  -- A transaction keeps what its body keeps: where it fails, the tables are those before it.
  pub transaction-Preserves :
      (f g : Error → Error) (body : ℕ → World → Result A × World)
      → ((t : ℕ) → Preserves (λ w. P w.db) (body t))
      → Preserves (λ w. P w.db) (transaction f g body)
  transaction-Preserves f g body k = record {
    holds = λ w h. cases w h (transaction f g body w).0 refl;
  }
    where
      cases :
          (w : World)
          → P w.db
          → (r : Result A) → (transaction f g body w).0 ≡ r
          → P (transaction f g body w).1.db
      cases w h (ok a) e =
          subst P (sym (transaction-ok f g body w e).1) ((k (advance w).clock).holds (advance w) h)
      cases w h (err x) e = subst P (sym (transaction_atomic f g body w x e)) h
