-- ===== src/Providers/Http/Tries.antt =====
-- A bounded number of attempts, and when one of them is taken.
use pushboy.Prelude.{
  ℕ, zero, suc, ◌≤◌, ◌≡◌, refl, Bool, false, ◌&&◌, ◌||◌, not, Option, none, some, length, eqb,
  arith, is_some, Error, is_ok,
}
use pushboy.Providers.Http.{Reply, failed, answered, Attempt, Sending, again}

-- The provider took the notification.
abbrev pub took : Reply → Bool
took (failed text) = false
took (answered r) = eqb r.status_code 200

abbrev pub is_taken : Attempt → Bool
is_taken a = not (is_some a.slot) && took a.reply

-- The attempt had a slot, its reply is one to try again after, and the context outlives the wait.
abbrev pub is_retried : (Reply → Bool) → Attempt → Bool
is_retried may_retry a = not (is_some a.slot) && may_retry a.reply && not (is_some a.ended)

-- One of so many attempts and one more is taken, and those before it are retried.
abbrev pub is_reached : (Reply → Bool) → (ℕ → Attempt) → ℕ → ℕ → Bool
is_reached may_retry tries zero attempt = is_taken (tries attempt)
is_reached may_retry tries (suc left) attempt =
    let later = is_reached may_retry tries left (suc attempt) in
    is_taken (tries attempt) || is_retried may_retry (tries attempt) && later

-- It succeeds or not, makes at most one request more than so many, and waits at most so often.
abbrev pub Fits : Sending → Bool → ℕ → Type 0
Fits s good most = (is_ok s.result ≡ good) × (s.requests ≤ suc most) × (length s.waits ≤ most)

pub again-Fits :
    (wait most : ℕ) (later : Sending) (good : Bool) (ended : Option Error)
    → Fits later good most
    → Fits (again wait ended later) (not (is_some ended) && good) (suc most)
again-Fits wait most later good (some e) h = (refl, ground arith, ground arith)
again-Fits wait most later good none h = (h.0, omega (arith, h.1), omega (arith, h.2))

abbrev pub with_fields : Option Error → Reply → Option Error → Attempt
with_fields slot reply ended = record { slot = slot; reply = reply; ended = ended }
