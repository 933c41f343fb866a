-- ===== src/Providers/Apns/Attempts.antt =====
-- How often the client tries, and what makes it succeed.
use pushboy.Prelude.{
  ℕ, zero, suc, ◌≤◌, String, ◌≡◌, refl, Bool, ◌&&◌, ◌||◌, Option, none, some, length, eqb, arith,
  Error, is_ok, Bool-cases, inl, inr,
}
use pushboy.Providers.Http.{Reply, failed, answered, Attempt, Sending}
use pushboy.Providers.Http.Tries.{is_taken, is_retried, is_reached, Fits, again-Fits, with_fields}
use pushboy.Providers.Apns.{
  ApnsClient, is_retryable_error, on_attempt, retry_loop, send_with_retry, initial_backoff, doubled,
  retry_after_or,
}

-- It is worth another attempt: a lost connection, or 429.
abbrev pub may_retry : Reply → Bool
may_retry (failed text) = is_retryable_error text
may_retry (answered r) = eqb r.status_code 429

module _ (atoi : String → Option ℕ) (reason_of : String → Option String) (tries : ℕ → Attempt) where
  last_one-Fits :
      (backoff : ℕ) (slot ended : Option Error) (reply : Reply)
      → let a = with_fields slot reply ended in
        Fits (on_attempt atoi reason_of tries backoff none a) (is_taken a) 0
  last_one-Fits backoff (some e) ended reply = (refl, ground arith, ground arith)
  last_one-Fits backoff none ended (failed text) = (refl, ground arith, ground arith)
  last_one-Fits backoff none ended (answered r) = (ground arith, ground arith, ground arith)

  one_more-Fits :
      (backoff most : ℕ) (next : ℕ → Sending) (good : Bool) (slot ended : Option Error)
      (reply : Reply)
      → ((wait : ℕ) → Fits (next wait) good most)
      → let a = with_fields slot reply ended in
        Fits
          (on_attempt atoi reason_of tries backoff (some next) a)
          (is_taken a || is_retried may_retry a && good)
          (suc most)
  one_more-Fits backoff most next good (some e) ended reply h = (refl, ground arith, ground arith)
  one_more-Fits backoff most next good none ended (failed text) h =
      elim (Bool-cases (is_retryable_error text)) [
        | inl e ↦ rw e (again-Fits backoff most (next (doubled backoff)) good ended (h _))
        | inr e ↦ rw e (refl, ground arith, ground arith)
      ]
  one_more-Fits backoff most next good none ended (answered r) h =
      elim (Bool-cases (eqb r.status_code 200)) [
        | inl e ↦ rw e (refl, ground arith, ground arith)
        | inr e ↦ elim (Bool-cases (eqb r.status_code 429)) [
          | inl f ↦
              let wait = retry_after_or atoi reason_of tries backoff r.retry_after in
              rw (e, f) (again-Fits wait most (next (doubled wait)) good ended (h _))
          | inr f ↦ rw (e, f) (refl, ground arith, ground arith)
        ]
      ]

  retry_loop-Fits :
      (left attempt backoff : ℕ)
      → Fits
          (retry_loop atoi reason_of tries left attempt backoff)
          (is_reached may_retry tries left attempt)
          left
  unfolding retry_loop
  retry_loop-Fits zero attempt backoff =
      let a = tries attempt in last_one-Fits backoff a.slot a.ended a.reply
  retry_loop-Fits (suc left) attempt backoff =
      let a = tries attempt in
      one_more-Fits backoff left (λ wait. retry_loop atoi reason_of tries left (suc attempt) wait) _
        a.slot a.ended a.reply (λ wait. retry_loop-Fits left (suc attempt) wait)

  -- The client of Apple's service returns no error exactly if one of its attempts, of which there are
  -- as many as the retries and one more, is answered 200, and each before it ended with a lost connection
  -- or with 429 and the context outlived the wait after it. It makes no more requests than that, and
  -- waits at most as often as there are retries.
  pub send_with_retry_lem :
      (c : ApnsClient)
      → let s = send_with_retry atoi reason_of tries c in
        (is_ok s.result ≡ is_reached may_retry tries c.max_retries 0)
        × (s.requests ≤ suc c.max_retries)
        × (length s.waits ≤ c.max_retries)
  unfolding send_with_retry
  send_with_retry_lem c = retry_loop-Fits c.max_retries 0 initial_backoff
