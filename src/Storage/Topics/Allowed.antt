-- ===== src/Storage/Topics/Allowed.antt =====
-- When the operations of Following succeed.
use mathlib.Core.Path.{◌∙◌}
use pushboy.Prelude.{
  String, ◌≡◌, refl, sym, true, false, ◌||◌, List, [], ◌∷◌, ◌==◌, eq_iff, arith, All, exists,
  Result, ok, err, trim_space, ◌>>=◌, Error,
}
use pushboy.Storage.Tables.{Db, User, Topic, UserTopicSubscription}
use pushboy.Storage.World.{World, IsReliable, statement, fails_of_reliable}
use pushboy.Storage.Topics.{create_topic_text, create_topic, delete_topic_text, delete_topic}
use pushboy.Storage.Directory.{
  create_user_text, create_user, delete_user_text, delete_user, same_pair, subscribe_text,
  subscribe_user_to_topic, unsubscribe_text, unsubscribe_user_from_topic, subscription_id,
}
use pushboy.Storage.Topics.References.{All-select, All-snoc}
use pushboy.Storage.Topics.Keys.{has_colon, subscription_id-injective}
use pushboy.Storage.Topics.Following.{
  Operation, add_user, remove_user, add_topic, remove_topic, follow, unfollow, perform, perform_all,
  allowed, view, count_if_none, add_user-ok, add_user-err, remove_user-ok, remove_user-err,
  add_topic-ok, add_topic-err, remove_topic-ok, remove_topic-err, follow-ok, follow-err,
  unfollow-ok, unfollow-err,
}

-- A subscription with the id that `SubscribeUserToTopic` writes, of a user without a colon.
abbrev IsOwn : UserTopicSubscription → Type 0
IsOwn s = (s.id ≡ subscription_id s.user_id s.topic_id) × (has_colon s.user_id ≡ false)

abbrev pub IsKeyed : World → Type 0
IsKeyed w = All IsOwn w.db.subscriptions

-- What an operation needs beside being allowed: an id without a colon, or a topic that has an id and
-- a name of its own.
abbrev pub Ready : Operation → Db → Type 0
Ready (follow u t) d = has_colon u ≡ false
Ready (add_topic t) d =
    ((trim_space t.id == "" || trim_space t.name == "") ≡ false)
    × (exists (λ (x : Topic). x.name == trim_space t.name) d.topics ≡ false)
Ready _ d = Unit

key_free :
    (u t : String) (rows : List UserTopicSubscription)
    → has_colon u ≡ false
    → All IsOwn rows
    → exists (same_pair u t) rows ≡ false
    → exists (λ (x : UserTopicSubscription). x.id == subscription_id u t) rows ≡ false
key_free u t [] h k e = refl
key_free u t (s ∷ rest) h k e = ground (
  arith,
  key_free u t rest h k.1,
  own,
  eq_iff s.id (subscription_id u t),
  eq_iff s.user_id u,
  eq_iff s.topic_id t,
)
  where
    own : s.id ≡ subscription_id u t → (s.user_id ≡ u) × (s.topic_id ≡ t)
    own same = subscription_id-injective s.user_id u s.topic_id t k.0.1 h (sym k.0.0 ∙ same)

perform-ok :
    (op : Operation) (w : World)
    → IsReliable w
    → IsKeyed w
    → Ready op w.db
    → allowed op (view w.db) ≡ true
    → (perform op w).0 ≡ ok tt
unfolding create_user create_user_text delete_user delete_user_text create_topic create_topic_text
    delete_topic delete_topic_text subscribe_user_to_topic subscribe_text
    unsubscribe_user_from_topic unsubscribe_text statement ◌>>=◌
perform-ok (add_user id) w r k p a = ground (arith, fails_of_reliable w.script r)
perform-ok (remove_user id) w r k p a =
    ground
      (arith, fails_of_reliable w.script r, count_if_none (λ (u : User). u.id == id) w.db.users)
perform-ok (add_topic t) w r k p a =
    let (full, free) = p in ground (arith, fails_of_reliable w.script r, full, free)
perform-ok (remove_topic id) w r k p a =
    ground
      (arith, fails_of_reliable w.script r, count_if_none (λ (t : Topic). t.id == id) w.db.topics)
perform-ok (follow u t) w r k p a =
    ground (arith, fails_of_reliable w.script r, key_free u t w.db.subscriptions p k)
perform-ok (unfollow u t) w r k p a =
    ground (arith, fails_of_reliable w.script r, count_if_none (same_pair u t) w.db.subscriptions)

-- The users that follow have no colon.
abbrev pub Plain : Operation → Type 0
Plain (follow u t) = has_colon u ≡ false
Plain _ = Unit

by_result :
    (P : Db → Type 0) (r : Result (Unit {0}) × World)
    → (r.0 ≡ ok tt → P r.1.db)
    → ((e : Error) → r.0 ≡ err e → P r.1.db)
    → P r.1.db
by_result P (ok tt, w) h k = h refl
by_result P (err e, w) h k = k e refl

abbrev AllOwn : Db → Type 0
AllOwn d = All IsOwn d.subscriptions

perform-IsKeyed : (op : Operation) (w : World) → Plain op → IsKeyed w → IsKeyed (perform op w).1
unfolding delete_user_text delete_topic_text unsubscribe_text
perform-IsKeyed (add_user id) w p k =
    by_result AllOwn (perform (add_user id) w) (λ h. rw (add_user-ok id w h).1 k)
      (λ e h. rw (add_user-err id w e h) k)
perform-IsKeyed (remove_user id) w p k =
    by_result AllOwn (perform (remove_user id) w)
      (λ h.
        let (now, there, after) = remove_user-ok id w h in
        rw (after, there) (All-select IsOwn _ w.db.subscriptions k))
      (λ e h. rw (remove_user-err id w e h) k)
perform-IsKeyed (add_topic t) w p k =
    by_result AllOwn (perform (add_topic t) w) (λ h. rw (add_topic-ok t w h).1 k)
      (λ e h. rw (add_topic-err t w e h) k)
perform-IsKeyed (remove_topic id) w p k =
    by_result AllOwn (perform (remove_topic id) w)
      (λ h.
        let (now, there, after) = remove_topic-ok id w h in
        rw (after, there) (All-select IsOwn _ w.db.subscriptions k))
      (λ e h. rw (remove_topic-err id w e h) k)
perform-IsKeyed (follow u t) w p k =
    by_result AllOwn (perform (follow u t) w)
      (λ h.
        let (s, of_user, of_topic, key, free, after) = follow-ok u t w h in
        rw after (All-snoc IsOwn w.db.subscriptions s k (cc, cc)))
      (λ e h. rw (follow-err u t w e h) k)
perform-IsKeyed (unfollow u t) w p k =
    by_result AllOwn (perform (unfollow u t) w)
      (λ h. rw (unfollow-ok u t w h).1 (All-select IsOwn _ w.db.subscriptions k))
      (λ e h. rw (unfollow-err u t w e h) k)

perform_all-IsKeyed :
    (ops : List Operation) (w : World) → All Plain ops → IsKeyed w → IsKeyed (perform_all ops w)
perform_all-IsKeyed [] w p k = k
perform_all-IsKeyed (op ∷ ops) w p k =
    perform_all-IsKeyed ops (perform op w).1 p.1 (perform-IsKeyed op w p.0 k)

-- An operation that the abstract view allows succeeds where no statement is lost, whatever was done
-- before to tables whose subscriptions have the ids that the code writes, if no user that follows has
-- a colon in its id; a new topic must have an id and a name, and the name must be free.
pub allowed_succeeds :
    (ops : List Operation) (op : Operation) (w : World)
    → IsKeyed w
    → All Plain ops
    → IsReliable (perform_all ops w)
    → Ready op (perform_all ops w).db
    → allowed op (view (perform_all ops w).db) ≡ true
    → (perform op (perform_all ops w)).0 ≡ ok tt
allowed_succeeds ops op w k p r q a =
    perform-ok op (perform_all ops w) r (perform_all-IsKeyed ops w p k) q a
