-- ===== src/Providers/Http.antt =====
-- Requests to a provider, as the clients of internal/apns and internal/fcm make them: what net/http
-- answers is given for each attempt. Times are in milliseconds.
pub mod Tries
use pushboy.Prelude.{ℕ, suc, String, Option, none, some, List, [], ◌∷◌, Error, Result, ok, err}

pub record HttpResponse : Type 0 where
  pub status_code : ℕ
  pub status : String
  pub retry_after : String
  pub body : String

-- The text of the error of `Do`, or a response.
pub data Reply : Type 0 where
  failed : String → Reply
  answered : HttpResponse → Reply

-- An attempt: the error with which it ends before its request, as its context ends while it waits for a
-- slot; the reply; and whether the context ends in the wait after it.
pub record Attempt : Type 0 where
  pub slot : Option Error
  pub reply : Reply
  pub ended : Option Error

-- What a call returns, how many requests it made, and how long it waited after each.
pub record Sending : Type 0 where
  pub result : Result (Unit {0})
  pub requests : ℕ
  pub waits : List ℕ

abbrev pub refused : Error → Sending
refused e = record { result = err e; requests = 0; waits = [] }

abbrev pub finished : Result (Unit {0}) → Sending
finished r = record { result = r; requests = 1; waits = [] }

-- The wait, and the attempts after it if the context lasts.
abbrev pub again : ℕ → Option Error → Sending → Sending
again wait (some e) later = record { result = err e; requests = 1; waits = wait ∷ [] }
again wait none later = record {
  result = later.result;
  requests = suc later.requests;
  waits = wait ∷ later.waits;
}
