-- ===== src/Workers/Fanout/Emission.antt =====
-- What a fan-out emits and writes when no statement is lost.
use mathlib.Core.List.{append-nil, append_assoc}
use pushboy.Prelude.{
  ℕ, zero, suc, ◌+◌, ◌-◌, ◌≤◌, ◌<◌, String, ◌≡◌, refl, sym, ap, ◌∙◌, inl, inr, Bool-cases, true,
  false, not, List, [], ◌∷◌, ◌++◌, map, ◌==◌, arith, length, take, drop, take-append-drop,
  length-append, length-drop, length-take, Result, ok, ◌>>=◌, attempt,
}
use pushboy.Model.Task.{SendTask, JobItem}
use pushboy.Storage.Tables.{Token}
use pushboy.Storage.World.{World, IsReliable, advance, advance-IsReliable}
use pushboy.Storage.Paging.{Collation, TokenBatch, to_batch, page}
use pushboy.Storage.Paging.Walk.{IsKeyed}
use pushboy.Storage.Paging.Batches.{left, batch_cases}
use pushboy.Storage.Tokens.{
  key, get_token_batch_for_topic_reliable, get_token_batch_for_user_reliable,
}
use pushboy.Workers.Fanout.{Lane, task_for, emit_all, targets, fetch_batch, fanout_loop}

map-append :
    (job : JobItem) (xs ys : List Token)
    → map (task_for job) (xs ++ ys) ≡ map (task_for job) xs ++ map (task_for job) ys
map-append job [] ys = refl
map-append job (x ∷ xs) ys = ap (◌∷◌ (task_for job x)) (map-append job xs ys)

abbrev pub lane : World → List SendTask → ℕ → Lane
lane w em n = record { world = w; emitted = em; room = n }

pub emit_all-room :
    (job : JobItem) (ts : List Token) (w : World) (em : List SendTask) (n : ℕ)
    → length ts ≤ n
    → emit_all job ts (lane w em n) ≡ (ok tt, lane w (em ++ map (task_for job) ts) (n - length ts))
unfolding emit_all ◌>>=◌
emit_all-room job [] w em n h =
    rw (append-nil em) (ap (λ (k : ℕ). (ok tt, lane w em k)) (omega arith))
emit_all-room job (t ∷ ts) w em zero h = absurd (omega arith)
emit_all-room job (t ∷ ts) w em (suc n) h =
    emit_all-room job ts w (em ++ task_for job t ∷ []) n (omega arith)
    ∙ rw (append_assoc em (task_for job t ∷ []) (map (task_for job) ts)) (
        ap (λ (k : ℕ). (ok tt, lane w (em ++ task_for job t ∷ map (task_for job) ts) k))
          (omega arith))

abbrev counted : ℕ → World → List SendTask → ℕ → Result ℕ × Lane
counted k w em n = (ok k, lane w em n)

after_round :
    (job : JobItem) (ts : List Token) (size total : ℕ) (v : World) (em : List SendTask) (n : ℕ)
    → counted
        (total + length (take size ts) + length (drop size ts))
        v
        ((em ++ map (task_for job) (take size ts)) ++ map (task_for job) (drop size ts))
        (n - length (take size ts) - length (drop size ts))
      ≡ counted (total + length ts) v (em ++ map (task_for job) ts) (n - length ts)
after_round job ts size total v em n =
    rw
      (
        append_assoc em (map (task_for job) (take size ts)) (map (task_for job) (drop size ts)),
        sym (map-append job (take size ts) (drop size ts)),
        take-append-drop size ts,
      )
      (ap
          (λ (k : ℕ).
            counted k v (em ++ map (task_for job) ts)
              (n - length (take size ts) - length (drop size ts)))
          sums
        ∙ ap (counted (total + length ts) v (em ++ map (task_for job) ts)) rests)
  where
    both : length (take size ts) + length (drop size ts) ≡ length ts
    both = sym (length-append (take size ts) (drop size ts)) ∙ ap length (take-append-drop size ts)

    sums : total + length (take size ts) + length (drop size ts) ≡ total + length ts
    sums = omega (arith, both)

    rests : n - length (take size ts) - length (drop size ts) ≡ n - length ts
    rests = omega (arith, both)

-- The job names a topic or a user.
abbrev pub HasTarget : JobItem → Type 0
HasTarget job = not (job.topic_id == "") ≡ false → not (job.user_id == "") ≡ true

module _ (c : Collation) where
  pub fetch_batch_reliable :
      (job : JobItem) (cursor : String) (size : ℕ) (w : World) (em : List SendTask) (n : ℕ)
      (b : TokenBatch Token)
      → IsReliable w
      → HasTarget job
      → to_batch key size (page key c cursor size (targets c job w.db)) ≡ ok b
      → fetch_batch c job cursor size (lane w em n) ≡ (ok b, lane (advance w) em n)
  unfolding fetch_batch ◌>>=◌ attempt
  fetch_batch_reliable job cursor size w em n b r t e =
      elim (Bool-cases (not (job.topic_id == ""))) [
        | inl l ↦
            rw (l, get_token_batch_for_topic_reliable c job.topic_id cursor size w r, rw l at e)
              refl
        | inr l ↦
            rw (l, t l, get_token_batch_for_user_reliable c job.user_id cursor size w r, rw l at e)
              refl
      ]

  -- The batches of the loop are those of the tokens that are left, and every one is emitted.
  pub fanout_loop_lem :
      (fuel size : ℕ) (job : JobItem) (cursor : String) (total : ℕ) (w : World) (em : List SendTask)
      (n : ℕ)
      → 0 < size
      → IsReliable w
      → HasTarget job
      → IsKeyed key c (targets c job w.db)
      → length (left key c cursor (targets c job w.db)) < fuel
      → length (left key c cursor (targets c job w.db)) ≤ n
      → let rest = left key c cursor (targets c job w.db) in
        (v : World) × (v.db ≡ w.db)
        × IsReliable v
        × (fanout_loop c fuel size job cursor total (lane w em n)
            ≡ (ok (total + length rest), lane v (em ++ map (task_for job) rest) (n - length rest)))
  unfolding fanout_loop ◌>>=◌
  fanout_loop_lem zero size job cursor total w em n s r t k f m = absurd (omega arith)
  fanout_loop_lem (suc fuel) zero job cursor total w em n s r t k f m = absurd (omega arith)
  fanout_loop_lem (suc fuel) (suc size) job cursor total w em n s r t k f m =
      elim (batch_cases key c size cursor (targets c job w.db) k) [
        | inl (z, (e, d, h)) ↦
            let rest = left key c cursor (targets c job w.db) in
            let short : length (take (suc size) rest) ≡ suc size =
              omega (arith, length-take (suc size) rest) in
            let ih =
              fanout_loop_lem fuel (suc size) job (key z) (total + length (take (suc size) rest))
                (advance w) (em ++ map (task_for job) (take (suc size) rest))
                (n - length (take (suc size) rest)) s (advance-IsReliable w r) t k
                (rw d (omega (arith, length-drop (suc size) rest, h, f)))
                (rw d (omega (arith, length-drop (suc size) rest, short, m))) in
            (
              ih.0,
              ih.1,
              ih.2,
              rw
                  (
                    fetch_batch_reliable job cursor (suc size) w em n _ r t e,
                    emit_all-room job (take (suc size) rest) (advance w) em n
                        (omega (arith, short, h, m)),
                  )
                  (ih.3 ∙ rw d (after_round job rest (suc size) total ih.0 em n)),
            )
        | inr e ↦ (
          advance w,
          refl,
          advance-IsReliable w r,
          rw
              (
                fetch_batch_reliable job cursor (suc size) w em n _ r t e,
                emit_all-room job (left key c cursor (targets c job w.db)) (advance w) em n m,
              )
              refl,
        )
      ]
