-- ===== src/Storage/Topics/References.antt =====
-- Tokens and subscriptions belong to users and topics that are there.
use pushboy.Prelude.{
  ℕ, String, ◌≡◌, refl, Bool, true, false, ◌&&◌, not, List, [], ◌∷◌, ◌++◌, ◌==◌, eq_iff, arith,
  if◌then◌else◌, exists, select, update_where, All, Bool-cases, inl, inr, Result, ok, err, Error,
  duplicate, rejected, not_found,
}
use pushboy.Storage.Tables.{Db, User, Token, Topic, UserTopicSubscription}
use pushboy.Storage.PushJobs.{has_user, has_topic}
use pushboy.Storage.Topics.{create_topic_text, delete_topic_text}
use pushboy.Storage.Directory.{
  create_user_text, delete_user_text, create_token_text, delete_token_text, soft_delete_text,
  subscribe_text, unsubscribe_text, same_pair,
}

abbrev Known : Db → String → Type 0
Known d id = has_user id d ≡ true

abbrev KnownTopic : Db → String → Type 0
KnownTopic d id = has_topic id d ≡ true

-- The user of every token is there, and the user and the topic of every subscription.
pub record IsReferenced (d : Db) : Type 0 where
  pub of_tokens : All (λ (t : Token). Known d t.user_id) d.tokens
  pub of_subscriptions : All (λ (s : UserTopicSubscription). Known d s.user_id) d.subscriptions
  pub of_topics : All (λ (s : UserTopicSubscription). KnownTopic d s.topic_id) d.subscriptions

module _ {A : Type 0} where
  pub All-select :
      (P : A → Type 0) (p : A → Bool) (rows : List A) → All P rows → All P (select p rows)
  All-select P p [] h = tt
  All-select P p (x ∷ xs) h = elim (Bool-cases (p x)) [
    | inl e ↦ rw e (h.0, All-select P p xs h.1)
    | inr e ↦ rw e (All-select P p xs h.1)
  ]

  -- What follows for the rows that a test keeps.
  All-selected :
      (P Q : A → Type 0) (p : A → Bool) (rows : List A)
      → ((x : A) → p x ≡ true → P x → Q x)
      → All P rows
      → All Q (select p rows)
  All-selected P Q p [] f h = tt
  All-selected P Q p (x ∷ xs) f h = elim (Bool-cases (p x)) [
    | inl e ↦ rw e (f x e h.0, All-selected P Q p xs f h.1)
    | inr e ↦ rw e (All-selected P Q p xs f h.1)
  ]

  All-map : (P Q : A → Type 0) (rows : List A) → ((x : A) → P x → Q x) → All P rows → All Q rows
  All-map P Q [] f h = tt
  All-map P Q (x ∷ xs) f h = (f x h.0, All-map P Q xs f h.1)

  pub All-snoc :
      (P : A → Type 0) (rows : List A) (x : A) → All P rows → P x → All P (rows ++ x ∷ [])
  All-snoc P [] x h k = (k, tt)
  All-snoc P (y ∷ ys) x h k = (h.0, All-snoc P ys x h.1 k)

module _ {A : Type 0} (id_of : A → String) where
  abbrev Has : String → List A → Type 0
  Has id rows = exists (λ (x : A). id_of x == id) rows ≡ true

  exists_more : (id : String) (rows : List A) (x : A) → Has id rows → Has id (rows ++ x ∷ [])
  exists_more id [] x h = cc
  exists_more id (y ∷ ys) x h = ground (arith, exists_more id ys x)

  exists_kept :
      (id other : String) (rows : List A)
      → not (other == id) ≡ true
      → Has other rows
      → Has other (select (λ (x : A). not (id_of x == id)) rows)
  exists_kept id other [] n h = cc
  exists_kept id other (x ∷ xs) n h = ground (
    arith,
    exists_kept id other xs n,
    eq_iff (id_of x) other,
    eq_iff (id_of x) id,
    eq_iff other id,
  )

abbrev user_id_of : User → String
user_id_of u = u.id

abbrev topic_id_of : Topic → String
topic_id_of t = t.id

-- The statements that change the four tables.
pub data Change : Type 0 where
  create_user : User → Change
  delete_user : String → Change
  create_topic : Topic → Change
  delete_topic : String → Change
  create_token : Token → Change
  delete_token : String → Change
  soft_delete : (Token → Bool) → Change
  subscribe : UserTopicSubscription → Change
  unsubscribe : String → String → Change

abbrev pub change : Change → ℕ → Db → Db
change (create_user u) now d = (create_user_text u now d).1
change (delete_user id) now d = (delete_user_text id now d).1
change (create_topic t) now d = (create_topic_text t now d).1
change (delete_topic id) now d = (delete_topic_text id now d).1
change (create_token t) now d = (create_token_text t now d).1
change (delete_token id) now d = (delete_token_text id now d).1
change (soft_delete p) now d = (soft_delete_text p now d).1
change (subscribe s) now d = (subscribe_text s now d).1
change (unsubscribe user_id topic_id) now d = (unsubscribe_text user_id topic_id now d).1

abbrev pub changes : List (ℕ × Change) → Db → Db
changes [] d = d
changes ((now, c) ∷ cs) d = changes cs (change c now d)

All-soft_deleted :
    (d : Db) (p : Token → Bool) (ts : List Token)
    → All (λ (t : Token). Known d t.user_id) ts
    → All
        (λ (t : Token). Known d t.user_id)
        (update_where p (λ t. record t { is_deleted = true }) ts)
All-soft_deleted d p [] h = tt
All-soft_deleted d p (t ∷ ts) h = elim (Bool-cases (p t)) [
  | inl e ↦ rw e (h.0, All-soft_deleted d p ts h.1)
  | inr e ↦ rw e (h.0, All-soft_deleted d p ts h.1)
]

-- An INSERT with two keys and a reference: refused, or done where the reference is there.
abbrev inserted : Bool × Bool × Bool → Error × Error × Error → Db → Db → Result (Unit {0}) × Db
inserted (a, b, c) (e, f, g) d after =
    if a then (err e, d) else if b then (err f, d) else if c then (ok tt, after) else (err g, d)

inserted-IsReferenced :
    (a b c : Bool) (e f g : Error) (d after : Db)
    → IsReferenced d
    → (c ≡ true → IsReferenced after)
    → IsReferenced (inserted (a, b, c) (e, f, g) d after).1
inserted-IsReferenced true b c e f g d after h k = h
inserted-IsReferenced false true c e f g d after h k = h
inserted-IsReferenced false false true e f g d after h k = k refl
inserted-IsReferenced false false false e f g d after h k = h

both_true : (a b : Bool) → (a && b) ≡ true → (a ≡ true) × (b ≡ true)
both_true true b h = (refl, h)
both_true false b h = cc

change-IsReferenced :
    (c : Change) (now : ℕ) (d : Db) → IsReferenced d → IsReferenced (change c now d)
unfolding create_user_text delete_user_text create_topic_text delete_topic_text create_token_text
    delete_token_text soft_delete_text subscribe_text unsubscribe_text
change-IsReferenced (create_user u) now d h =
    inserted-IsReferenced (has_user u.id d) false true (duplicate "users_pkey") not_found not_found
      d (record d { users = d.users ++ u ∷ [] }) h
      (λ _. record {
        of_tokens =
            All-map _ _ d.tokens (λ t. exists_more user_id_of t.user_id d.users u) h.of_tokens;
        of_subscriptions =
            All-map _ _ d.subscriptions (λ s. exists_more user_id_of s.user_id d.users u)
              h.of_subscriptions;
        of_topics = h.of_topics;
      })
change-IsReferenced (delete_user id) now d h = elim (Bool-cases (has_user id d)) [
  | inl e ↦
      rw (e, change)
        (record {
          of_tokens =
              All-selected (λ (t : Token). Known d t.user_id) _ _ d.tokens
                (λ t. exists_kept user_id_of id t.user_id d.users) h.of_tokens;
          of_subscriptions =
              All-selected (λ (s : UserTopicSubscription). Known d s.user_id) _ _ d.subscriptions
                (λ s. exists_kept user_id_of id s.user_id d.users) h.of_subscriptions;
          of_topics = All-select _ _ d.subscriptions h.of_topics;
        })
  | inr e ↦ rw (e, change) h
]
change-IsReferenced (create_topic t) now d h =
    inserted-IsReferenced (has_topic t.id d) (exists (λ (x : Topic). x.name == t.name) d.topics)
      true (duplicate "topics_pkey") (duplicate "topics_name_key") not_found d
      (record d { topics = d.topics ++ t ∷ [] }) h
      (λ _. record {
        of_tokens = h.of_tokens;
        of_subscriptions = h.of_subscriptions;
        of_topics =
            All-map _ _ d.subscriptions (λ s. exists_more topic_id_of s.topic_id d.topics t)
              h.of_topics;
      })
change-IsReferenced (delete_topic id) now d h = elim (Bool-cases (has_topic id d)) [
  | inl e ↦
      rw (e, change)
        (record {
          of_tokens = h.of_tokens;
          of_subscriptions = All-select _ _ d.subscriptions h.of_subscriptions;
          of_topics =
              All-selected (λ (s : UserTopicSubscription). KnownTopic d s.topic_id) _ _
                d.subscriptions (λ s. exists_kept topic_id_of id s.topic_id d.topics) h.of_topics;
        })
  | inr e ↦ rw (e, change) h
]
change-IsReferenced (create_token t) now d h =
    inserted-IsReferenced (exists (λ (x : Token). x.id == t.id) d.tokens)
      (exists (λ (x : Token). x.token == t.token) d.tokens) (has_user t.user_id d)
      (duplicate "tokens_pkey") (duplicate "tokens_token_key") (rejected "tokens_user_id_fkey") d
      (record d { tokens = d.tokens ++ t ∷ [] }) h
      (λ e. record {
        of_tokens = All-snoc _ d.tokens t h.of_tokens e;
        of_subscriptions = h.of_subscriptions;
        of_topics = h.of_topics;
      })
change-IsReferenced (delete_token id) now d h = record {
  of_tokens = All-select _ _ d.tokens h.of_tokens;
  of_subscriptions = h.of_subscriptions;
  of_topics = h.of_topics;
}
change-IsReferenced (soft_delete p) now d h = record {
  of_tokens = All-soft_deleted d _ d.tokens h.of_tokens;
  of_subscriptions = h.of_subscriptions;
  of_topics = h.of_topics;
}
change-IsReferenced (subscribe s) now d h =
    inserted-IsReferenced (exists (λ (x : UserTopicSubscription). x.id == s.id) d.subscriptions)
      (exists (same_pair s.user_id s.topic_id) d.subscriptions)
      (has_user s.user_id d && has_topic s.topic_id d) (duplicate "user_topic_subscriptions_pkey")
      (duplicate "user_topic_subscriptions_user_id_topic_id_key")
      (rejected "user_topic_subscriptions_fkey") d
      (record d { subscriptions = d.subscriptions ++ s ∷ [] }) h
      (λ e.
        let known = both_true (has_user s.user_id d) (has_topic s.topic_id d) e in
        record {
          of_tokens = h.of_tokens;
          of_subscriptions = All-snoc _ d.subscriptions s h.of_subscriptions known.0;
          of_topics = All-snoc _ d.subscriptions s h.of_topics known.1;
        })
change-IsReferenced (unsubscribe user_id topic_id) now d h = record {
  of_tokens = h.of_tokens;
  of_subscriptions = All-select _ _ d.subscriptions h.of_subscriptions;
  of_topics = All-select _ _ d.subscriptions h.of_topics;
}

-- Whatever is created, deleted, registered or subscribed in whatever order, and whether or not the
-- statements are refused, every token is of a user that is there, and every subscription of a user
-- and a topic that are.
pub changes-IsReferenced :
    (cs : List (ℕ × Change)) (d : Db) → IsReferenced d → IsReferenced (changes cs d)
changes-IsReferenced [] d h = h
changes-IsReferenced ((now, c) ∷ cs) d h =
    changes-IsReferenced cs (change c now d) (change-IsReferenced c now d h)
