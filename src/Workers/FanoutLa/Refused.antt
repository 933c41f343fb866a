-- ===== src/Workers/FanoutLa/Refused.antt =====
-- Every token of a batch is accounted for.
use mathlib.Core.List.{append-nil, append_assoc}
use pushboy.Prelude.{
  ◌+◌, ◌≡◌, refl, Option, none, some, List, [], ◌∷◌, ◌++◌, map, length, arith, Error, Result, ok,
  attempt, ◌>>=◌,
}
use pushboy.Model.Task.{LaSendTask, LaSendOutcome, LaJobItem}
use pushboy.Storage.Tables.{LiveActivityToken}
use pushboy.Storage.World.{World}
use pushboy.Workers.FanoutLa.{LaLane, la_task_for, refused_outcome, push_la_tokens_to_pipeline}

-- The tokens whose tasks the pipeline takes, and those whose it refuses, by its answers in turn.
abbrev pub taken_by : List (Option Error) → List LiveActivityToken → List LiveActivityToken
taken_by answers [] = []
taken_by [] (x ∷ xs) = x ∷ taken_by [] xs
taken_by (none ∷ later) (x ∷ xs) = x ∷ taken_by later xs
taken_by (some e ∷ later) (x ∷ xs) = taken_by later xs

abbrev pub refused_by : List (Option Error) → List LiveActivityToken → List LiveActivityToken
refused_by answers [] = []
refused_by [] (x ∷ xs) = refused_by [] xs
refused_by (none ∷ later) (x ∷ xs) = refused_by later xs
refused_by (some e ∷ later) (x ∷ xs) = x ∷ refused_by later xs

abbrev pub la_lane : World → List LaSendTask → List (Option Error) → LaLane
la_lane w taken answers = record { world = w; tasks = record { taken = taken; answers = answers } }

abbrev tasks_of : LaJobItem → List LiveActivityToken → List LaSendTask
tasks_of job = map (la_task_for job)

abbrev pub answers_after : List LiveActivityToken → List (Option Error) → List (Option Error)
answers_after [] answers = answers
answers_after (x ∷ xs) [] = []
answers_after (x ∷ xs) (a ∷ later) = answers_after xs later

answers_after_none : (xs : List LiveActivityToken) → answers_after xs [] ≡ []
answers_after_none [] = refl
answers_after_none (x ∷ xs) = refl

abbrev pub refusals : LaJobItem → World → List LiveActivityToken → List LaSendOutcome
refusals job w = map (λ x. refused_outcome w.clock (la_task_for job x))

-- The value and the lane after a batch.
abbrev pub pushed :
    LaJobItem
    → World
    → List LaSendTask
    → List (Option Error)
    → List LiveActivityToken
    → Result (List LaSendOutcome) × LaLane
pushed job w taken answers xs = (
  ok (refusals job w (refused_by answers xs)),
  la_lane w (taken ++ map (la_task_for job) (taken_by answers xs)) (answers_after xs answers),
)

pub push_eq :
    (job : LaJobItem) (xs : List LiveActivityToken) (w : World) (taken : List LaSendTask)
    (answers : List (Option Error))
    → push_la_tokens_to_pipeline job xs (la_lane w taken answers) ≡ pushed job w taken answers xs
unfolding push_la_tokens_to_pipeline attempt ◌>>=◌
push_eq job [] w taken answers = rw (append-nil taken) refl
push_eq job (x ∷ xs) w taken [] =
    rw
      (
        push_eq job xs w (taken ++ la_task_for job x ∷ []) [],
        append_assoc taken (la_task_for job x ∷ []) (map (la_task_for job) (taken_by [] xs)),
        answers_after_none xs,
      )
      refl
push_eq job (x ∷ xs) w taken (none ∷ later) =
    rw
      (
        push_eq job xs w (taken ++ la_task_for job x ∷ []) later,
        append_assoc taken (la_task_for job x ∷ []) (map (la_task_for job) (taken_by later xs)),
      )
      refl
push_eq job (x ∷ xs) w taken (some e ∷ later) = rw (push_eq job xs w taken later) refl

all_accounted :
    (answers : List (Option Error)) (xs : List LiveActivityToken)
    → length (taken_by answers xs) + length (refused_by answers xs) ≡ length xs
all_accounted answers [] = omega arith
all_accounted [] (x ∷ xs) = omega (arith, all_accounted [] xs)
all_accounted (none ∷ later) (x ∷ xs) = omega (arith, all_accounted later xs)
all_accounted (some e ∷ later) (x ∷ xs) = omega (arith, all_accounted later xs)

-- Every token of a batch has its task taken by the pipeline or a failed outcome that says that it was
-- refused, and never both, in the order of the batch; the call itself does not fail and writes nothing
-- to the database.
pub push_la_tokens_to_pipeline_lem :
    (job : LaJobItem) (xs : List LiveActivityToken) (w : World) (taken : List LaSendTask)
    (answers : List (Option Error))
    → let r = push_la_tokens_to_pipeline job xs (la_lane w taken answers) in
      (r.0 ≡ ok (map (λ x. refused_outcome w.clock (la_task_for job x)) (refused_by answers xs)))
      × (r.1.tasks.taken ≡ taken ++ map (la_task_for job) (taken_by answers xs))
      × (r.1.world ≡ w)
      × (length (taken_by answers xs) + length (refused_by answers xs) ≡ length xs)
push_la_tokens_to_pipeline_lem job xs w taken answers =
    rw (push_eq job xs w taken answers) (refl, refl, refl, all_accounted answers xs)
