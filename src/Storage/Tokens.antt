-- ===== src/Storage/Tokens.antt =====
-- internal/storage/postgres.go: the queries for the tokens of a user and of a topic's subscribers.
use pushboy.Prelude.{
  ℕ, String, ◌≡◌, refl, Bool, ◌&&◌, not, List, [], ◌∷◌, ◌++◌, ◌==◌, length, select, exists, Result,
  ok, Exec, on_error, wrap, ◌>>=◌, if◌then◌else◌,
}
use pushboy.Storage.Tables.{Db, Token, UserTopicSubscription}
use pushboy.Storage.World.{World, statement, statement_at_reliable, advance, IsReliable}
use pushboy.Storage.Paging.{Collation, TokenBatch, to_batch, page}

abbrev pub key : Token → String
key t = t.id

abbrev pub is_live_of : String → Token → Bool
is_live_of user_id t = t.user_id == user_id && not t.is_deleted

abbrev pub user_tokens : String → Db → List Token
user_tokens user_id d = select (is_live_of user_id) d.tokens

-- The join: one row for each subscription to the topic and live token of its user.
abbrev pub joined : String → List Token → List UserTopicSubscription → List Token
joined topic_id ts [] = []
joined topic_id ts (s ∷ ss) =
    let rest = joined topic_id ts ss in
    if s.topic_id == topic_id then select (is_live_of s.user_id) ts ++ rest else rest

abbrev pub topic_tokens : String → Db → List Token
topic_tokens topic_id d = joined topic_id d.tokens d.subscriptions

-- What is computed from rows that were read.
abbrev pub from_result {ℓ} : {S A : Type ℓ} → Result A → Exec S A
from_result r s = (r, s)

module _ (c : Collation) where
  abbrev batch_of : (Db → List Token) → String → ℕ → Exec World (TokenBatch Token)
  batch_of rows cursor size = do
    read ←
        on_error (wrap "error getting token batch for topic")
          (statement (λ _ d. (ok (page key c cursor size (rows d)), d)))
    from_result (to_batch key size read)

  unfoldable pub get_token_batch_for_topic : String → String → ℕ → Exec World (TokenBatch Token)
  unfolding statement
  get_token_batch_for_topic topic_id = batch_of (topic_tokens topic_id)

  unfoldable pub get_token_batch_for_user : String → String → ℕ → Exec World (TokenBatch Token)
  unfolding statement
  get_token_batch_for_user user_id = batch_of (user_tokens user_id)

  batch_of_reliable :
      (rows : Db → List Token) (cursor : String) (size : ℕ) (w : World)
      → IsReliable w
      → batch_of rows cursor size w
        ≡ (to_batch key size (page key c cursor size (rows w.db)), advance w)
  unfolding statement on_error ◌>>=◌
  batch_of_reliable rows cursor size w h = rw (statement_at_reliable _ _ w h) refl

  -- A query that is not lost gives the batch behind the cursor, and changes no table.
  pub get_token_batch_for_topic_reliable :
      (topic_id cursor : String) (size : ℕ) (w : World)
      → IsReliable w
      → get_token_batch_for_topic topic_id cursor size w
        ≡ (to_batch key size (page key c cursor size (topic_tokens topic_id w.db)), advance w)
  unfolding get_token_batch_for_topic
  get_token_batch_for_topic_reliable topic_id = batch_of_reliable (topic_tokens topic_id)

  pub get_token_batch_for_user_reliable :
      (user_id cursor : String) (size : ℕ) (w : World)
      → IsReliable w
      → get_token_batch_for_user user_id cursor size w
        ≡ (to_batch key size (page key c cursor size (user_tokens user_id w.db)), advance w)
  unfolding get_token_batch_for_user
  get_token_batch_for_user_reliable user_id = batch_of_reliable (user_tokens user_id)

-- The queries that only count.
abbrev pub is_subscribed : String → List UserTopicSubscription → String → Bool
is_subscribed topic_id ss user_id =
    exists (λ (s : UserTopicSubscription). s.topic_id == topic_id && s.user_id == user_id) ss

unfoldable pub get_token_count_for_topic : String → Exec World ℕ
get_token_count_for_topic topic_id = on_error (wrap "error counting topic tokens") (
    statement (λ _ d. (
      ok (
          length (
            select
              (λ (t : Token). is_subscribed topic_id d.subscriptions t.user_id && not t.is_deleted)
              d.tokens)),
      d,
    )))

unfoldable pub get_token_count_for_user : String → Exec World ℕ
get_token_count_for_user user_id =
    on_error (wrap "error counting user tokens")
      (statement (λ _ d. (ok (length (user_tokens user_id d)), d)))
