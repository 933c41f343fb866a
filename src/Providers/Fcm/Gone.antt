-- ===== src/Providers/Fcm/Gone.antt =====
-- A token that Google's service does not know, from the answer to the outcome worker.
use pushboy.Prelude.{
  ℕ, zero, suc, String, ◌≡◌, refl, true, false, Option, none, some, [], ◌∷◌, eqb, Error, message,
  Result, ok, err, exists,
}
use pushboy.Model.Push.{Platform, NotificationPayload}
use pushboy.Model.Task.{LaSendTask, LaSendOutcome}
use pushboy.Storage.World.{World, IsReliable}
use pushboy.Storage.LaOutcomes.{
  is_la_invalid_token, summarize_la_outcomes, shows_activity, apply_la_outcome_batch,
}
use pushboy.Storage.LaOutcomes.Invalidated.{IsInvalidated, apply_la_outcome_batch-IsInvalidated}
use pushboy.Storage.LaOutcomes.Reliable.{apply_la_outcome_batch-reliable}
use pushboy.Workers.Dispatch.{Dispatcher, LiveActivityRequest, la_request, la_receipt}
use pushboy.Providers.Http.{HttpResponse, answered, Attempt}
use pushboy.Providers.Http.Tries.{with_fields}
use pushboy.Providers.Fcm.{
  FcmClient, FcmMessage, FcmError, equal_fold, parse_fcm_error, is_busy, message_loop, send_message,
}
use pushboy.Providers.Fcm.LiveActivity.{FcmJson, fcm_la_message, send_fcm_live_activity}

abbrev gone : String
gone = "FCM error: registration-token-not-registered"

-- An answer of another status than 200, 429, 500 and 503, one of whose details is UNREGISTERED.
abbrev pub SaysGone : (String → Option FcmError) → HttpResponse → Type 0
SaysGone decode r =
    (eqb r.status_code 200 ≡ false)
    × (is_busy r.status_code ≡ false)
    × (e : FcmError) × (decode r.body ≡ some e)
    × (exists (λ c. equal_fold c "UNREGISTERED") e.error_codes ≡ true)

parse_gone :
    (decode : String → Option FcmError) (r : HttpResponse)
    → SaysGone decode r
    → parse_fcm_error decode r.body r.status ≡ message gone
unfolding parse_fcm_error
parse_gone decode r h = let (ok_no, busy_no, e, read, there) = h in rw (read, there) refl

loop_gone :
    (decode : String → Option FcmError) (tries : ℕ → Attempt) (left backoff : ℕ) (r : HttpResponse)
    (ended : Option Error)
    → tries 0 ≡ with_fields none (answered r) ended
    → SaysGone decode r
    → (message_loop decode tries left 0 backoff).result ≡ err (message gone)
unfolding message_loop
loop_gone decode tries zero backoff r ended first h = rw (first, h.0, parse_gone decode r h) refl
loop_gone decode tries (suc left) backoff r ended first h =
    rw (first, h.0, h.1, parse_gone decode r h) refl

module _ (json : FcmJson) (itoa : ℕ → String) (decode : String → Option FcmError)
    (tries : ℕ → Attempt) (c : FcmClient)
    (push : String → Option NotificationPayload → Result (Unit {0})) where
  -- The client as a sender meets it.
  abbrev pub fcm_dispatcher : Dispatcher
  fcm_dispatcher = record {
    send = push;
    send_live_activity =
        some
          (λ token request. (send_fcm_live_activity json itoa decode tries c token request).result);
  }

  sent_gone :
      (token : String) (request : LiveActivityRequest) (m : FcmMessage) (r : HttpResponse)
      (ended : Option Error)
      → fcm_la_message json itoa token request ≡ ok m
      → tries 0 ≡ with_fields none (answered r) ended
      → SaysGone decode r
      → (send_fcm_live_activity json itoa decode tries c token request).result ≡ err (message gone)
  unfolding send_fcm_live_activity send_message
  sent_gone token request m r ended built first h =
      rw built (loop_gone decode tries c.max_retries 500 r ended first h)

  abbrev pub outcome_of :
      (Error → String) → (Platform → Option Dispatcher) → String → ℕ → LaSendTask → LaSendOutcome
  outcome_of render dispatchers id now task = record {
    task = task;
    receipt = la_receipt render dispatchers id now task;
  }

  named_gone :
      (render : Error → String) (dispatchers : Platform → Option Dispatcher) (id : String) (now : ℕ)
      (task : LaSendTask) (m : FcmMessage) (r : HttpResponse) (ended : Option Error)
      → ((text : String) → render (message text) ≡ text)
      → dispatchers task.target.platform ≡ some fcm_dispatcher
      → fcm_la_message json itoa task.target.token (la_request render dispatchers id now task)
        ≡ ok m
      → tries 0 ≡ with_fields none (answered r) ended
      → SaysGone decode r
      → let o = outcome_of render dispatchers id now task in
        ((summarize_la_outcomes (o ∷ [])).1 ≡ task.target.token_id ∷ [])
        × (shows_activity o ≡ false)
  unfolding summarize_la_outcomes is_la_invalid_token
  named_gone render dispatchers id now task m r ended text found built first h =
      rw
        (
          found,
          sent_gone task.target.token (la_request render dispatchers id now task) m r ended built
              first h,
          text gone,
        )
        (refl, refl)

  -- Where Google's service answers a live activity message with a status that is not tried again and
  -- says UNREGISTERED, in any case of letters, the outcome that the sender submits can be applied, as
  -- a batch of its own, in every database that loses no statement, and after that every row of the
  -- token in the table of live activity tokens is marked as invalidated; the text of an error that has
  -- no cause is its message.
  pub gone-IsInvalidated :
      (render : Error → String) (dispatchers : Platform → Option Dispatcher) (id : String) (now : ℕ)
      (task : LaSendTask) (m : FcmMessage) (r : HttpResponse) (ended : Option Error) (w : World)
      → ((text : String) → render (message text) ≡ text)
      → dispatchers task.target.platform ≡ some fcm_dispatcher
      → fcm_la_message json itoa task.target.token (la_request render dispatchers id now task)
        ≡ ok m
      → tries 0 ≡ with_fields none (answered r) ended
      → SaysGone decode r
      → IsReliable w
      → let applied = apply_la_outcome_batch (outcome_of render dispatchers id now task ∷ []) w in
        (applied.0 ≡ ok tt) × IsInvalidated task.target.token_id applied.1.db
  gone-IsInvalidated render dispatchers id now task m r ended w text found built first h k =
      let o = outcome_of render dispatchers id now task in
      let (named, hidden) =
        named_gone render dispatchers id now task m r ended text found built first h in
      let done = apply_la_outcome_batch-reliable o w hidden k in
      (done, apply_la_outcome_batch-IsInvalidated o task.target.token_id w named done)
