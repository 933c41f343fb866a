-- ===== src/Storage/LaDispatches/Statements.antt =====
-- What the statements on live_activity_dispatches do to a row, in a world that loses none: they are the
-- changes of Lifecycle.
use pushboy.Prelude.{ℕ, String, ◌≡◌, List, [], ◌∷◌, ◌==◌, if◌then◌else◌, ok, Exec}
use pushboy.Storage.Tables.{LiveActivityDispatch}
use pushboy.Storage.World.{World, IsReliable}
use pushboy.Storage.Outcome.{PushOutcomeDelta, Deltas}

-- The call succeeds in a world that loses no statement, and leaves those dispatches.
abbrev pub Leaves : Exec World (Unit {0}) → World → List LiveActivityDispatch → Type 0
Leaves call w rows =
    (v : World) × IsReliable v × (call w ≡ (ok tt, v)) × (v.db.la_dispatches ≡ rows)

-- The deltas of one dispatch, each with the time of the batch.
abbrev pub deltas_of : ℕ → String → Deltas → List (ℕ × PushOutcomeDelta)
deltas_of now i [] = []
deltas_of now i ((id, delta) ∷ ds) =
    let rest = deltas_of now i ds in if i == id then (now, delta) ∷ rest else rest
