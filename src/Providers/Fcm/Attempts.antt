-- ===== src/Providers/Fcm/Attempts.antt =====
-- How often the client tries, what makes it succeed, and what it says of a token that is gone.
use pushboy.Prelude.{
  ℕ, zero, suc, ◌≤◌, String, ◌≡◌, refl, Bool, ◌&&◌, ◌||◌, Option, none, some, length, eqb, arith,
  Error, is_ok, Bool-cases, inl, inr,
}
use pushboy.Providers.Http.{Reply, failed, answered, Attempt, Sending}
use pushboy.Providers.Http.Tries.{is_taken, is_retried, is_reached, Fits, again-Fits, with_fields}
use pushboy.Providers.Fcm.{
  FcmClient, FcmError, is_busy, is_retryable_transport_error, on_attempt, message_loop,
  send_message,
}

-- It is worth another attempt: a lost connection, or 429, 503 or 500.
abbrev pub may_retry : Reply → Bool
may_retry (failed cause) = is_retryable_transport_error cause
may_retry (answered r) = is_busy r.status_code

module _ (decode : String → Option FcmError) (tries : ℕ → Attempt) where
  last_one-Fits :
      (backoff : ℕ) (slot ended : Option Error) (reply : Reply)
      → let a = with_fields slot reply ended in
        Fits (on_attempt decode tries backoff none a) (is_taken a) 0
  last_one-Fits backoff (some e) ended reply = (refl, ground arith, ground arith)
  last_one-Fits backoff none ended (failed cause) = (refl, ground arith, ground arith)
  last_one-Fits backoff none ended (answered r) = (ground arith, ground arith, ground arith)

  one_more-Fits :
      (backoff most : ℕ) (next : ℕ → Sending) (good : Bool) (slot ended : Option Error)
      (reply : Reply)
      → ((wait : ℕ) → Fits (next wait) good most)
      → let a = with_fields slot reply ended in
        Fits
          (on_attempt decode tries backoff (some next) a)
          (is_taken a || is_retried may_retry a && good)
          (suc most)
  one_more-Fits backoff most next good (some e) ended reply h = (refl, ground arith, ground arith)
  one_more-Fits backoff most next good none ended (failed cause) h =
      elim (Bool-cases (is_retryable_transport_error cause)) [
        | inl e ↦ rw e (again-Fits backoff most (next _) good ended (h _))
        | inr e ↦ rw e (refl, ground arith, ground arith)
      ]
  one_more-Fits backoff most next good none ended (answered r) h =
      elim (Bool-cases (eqb r.status_code 200)) [
        | inl e ↦ rw e (refl, ground arith, ground arith)
        | inr e ↦ elim (Bool-cases (is_busy r.status_code)) [
          | inl f ↦ rw (e, f) (again-Fits backoff most (next _) good ended (h _))
          | inr f ↦ rw (e, f) (refl, ground arith, ground arith)
        ]
      ]

  message_loop-Fits :
      (left attempt backoff : ℕ)
      → Fits
          (message_loop decode tries left attempt backoff)
          (is_reached may_retry tries left attempt)
          left
  unfolding message_loop
  message_loop-Fits zero attempt backoff =
      let a = tries attempt in last_one-Fits backoff a.slot a.ended a.reply
  message_loop-Fits (suc left) attempt backoff =
      let a = tries attempt in
      one_more-Fits backoff left (λ wait. message_loop decode tries left (suc attempt) wait) _
        a.slot a.ended a.reply (λ wait. message_loop-Fits left (suc attempt) wait)

  -- The client of Google's service, whose loop has no bound of its own, ends: it makes no more requests
  -- than its retries and one more, and waits at most as often as there are retries. It returns no error
  -- exactly if one of these attempts is answered 200, and each before it ended with a lost connection or
  -- with 429, 500 or 503 and the context outlived the wait after it.
  pub send_message_lem :
      (c : FcmClient)
      → let s = send_message decode tries c in
        (is_ok s.result ≡ is_reached may_retry tries c.max_retries 0)
        × (s.requests ≤ suc c.max_retries)
        × (length s.waits ≤ c.max_retries)
  unfolding send_message
  send_message_lem c = message_loop-Fits c.max_retries 0 500
