-- ===== src/Storage/Topics/Following.antt =====
-- What the users, topics and subscriptions of internal/storage/postgres.go promise: a set of users, a
-- set of topics, and who follows what, without ids of rows, times or an order.
use mathlib.Core.Path.{ap, ◌∙◌}
use pushboy.Prelude.{
  ℕ, String, ◌≡◌, refl, Bool, true, false, ◌&&◌, ◌||◌, not, List, [], ◌∷◌, ◌++◌, ◌==◌, eq_iff,
  arith, if◌then◌else◌, exists, select, count_if, Option, none, some, Result, ok, err, is_ok, Error,
  Exec, pure, ◌>>=◌, ◌>>◌, trim_space,
}
use pushboy.Storage.Tables.{Db, User, Topic, UserTopicSubscription}
use pushboy.Storage.World.{World, advance, statement}
use pushboy.Storage.PushJobs.{has_user, has_topic}
use pushboy.Storage.Topics.{create_topic_text, create_topic, delete_topic_text, delete_topic}
use pushboy.Storage.Directory.{
  create_user_text, create_user, delete_user_text, delete_user, same_pair, subscribe_text,
  subscribe_user_to_topic, unsubscribe_text, unsubscribe_user_from_topic, is_not, subscription_id,
}

-- The abstract view.
pub record Following : Type 0 where
  pub is_user : String → Bool
  pub is_topic : String → Bool
  pub follows : String → String → Bool

abbrev pub view : Db → Following
view d = record {
  is_user = λ id. has_user id d;
  is_topic = λ id. has_topic id d;
  follows = λ user_id topic_id. exists (same_pair user_id topic_id) d.subscriptions;
}

pub data Operation : Type 0 where
  add_user remove_user remove_topic : String → Operation
  add_topic : Topic → Operation
  follow unfollow : String → String → Operation

-- The operations of the store.
abbrev pub perform : Operation → Exec World (Unit {0})
perform (add_user id) = create_user id >> pure tt
perform (remove_user id) = delete_user id
perform (add_topic t) = create_topic t >> pure tt
perform (remove_topic id) = delete_topic id
perform (follow user_id topic_id) = subscribe_user_to_topic user_id topic_id >> pure tt
perform (unfollow user_id topic_id) = unsubscribe_user_from_topic user_id topic_id

-- When an operation may succeed, and what it then does.
abbrev pub allowed : Operation → Following → Bool
allowed (add_user id) a = not (a.is_user id)
allowed (remove_user id) a = a.is_user id
allowed (add_topic t) a = not (a.is_topic (trim_space t.id))
allowed (remove_topic id) a = a.is_topic id
allowed (follow u t) a = a.is_user u && a.is_topic t && not (a.follows u t)
allowed (unfollow u t) a = a.follows u t

abbrev pub effect : Operation → Following → Following
effect (add_user id) a = record a { is_user = λ x. a.is_user x || id == x }
effect (remove_user id) a = record a {
  is_user = λ x. a.is_user x && not (x == id);
  follows = λ u t. a.follows u t && not (u == id);
}
effect (add_topic t) a = record a { is_topic = λ x. a.is_topic x || trim_space t.id == x }
effect (remove_topic id) a = record a {
  is_topic = λ x. a.is_topic x && not (x == id);
  follows = λ u t. a.follows u t && not (t == id);
}
effect (follow u t) a = record a { follows = λ x y. a.follows x y || (u == x && t == y) }
effect (unfollow u t) a = record a { follows = λ x y. a.follows x y && not (x == u && y == t) }

-- An operation that succeeds was allowed and has its effect; one that fails has none.
abbrev pub IsStep : Operation → Bool → Following → Following → Type 0
IsStep op true a b = (allowed op a ≡ true) × (b ≡ effect op a)
IsStep op false a b = b ≡ a

module _ {A : Type 0} (p : A → Bool) where
  pub exists-append : (xs : List A) (x : A) → exists p (xs ++ x ∷ []) ≡ (exists p xs || p x)
  exists-append [] x = ground arith
  exists-append (y ∷ ys) x = ground (arith, exists-append ys x)

  -- Rows that pass one test, among those that another keeps.
  pub exists-select :
      (q : A → Bool) (c : Bool) (xs : List A)
      → ((x : A) → p x ≡ true → q x ≡ c)
      → exists p (select q xs) ≡ (exists p xs && c)
  exists-select q c [] h = ground arith
  exists-select q c (x ∷ xs) h = ground (arith, h x, exists-select q c xs h)

  pub count_if_none : (xs : List A) → count_if p xs ≡ 0 → exists p xs ≡ false
  count_if_none [] h = refl
  count_if_none (x ∷ xs) h = ground (arith, count_if_none xs)

  pub count_if_some : (xs : List A) → exists p xs ≡ false → count_if p xs ≡ 0
  count_if_some [] h = refl
  count_if_some (x ∷ xs) h = ground (arith, count_if_some xs)

  pub select_all : (xs : List A) → count_if p xs ≡ 0 → select (λ (x : A). not (p x)) xs ≡ xs
  select_all [] h = refl
  select_all (x ∷ xs) h = ground (arith, select_all xs)

same_id : (x id a : String) → (a == x) ≡ true → is_not id a ≡ not (x == id)
same_id x id a h = ground (arith, eq_iff a x)

view-eq :
    (a b : Following)
    → ((x : String) → a.is_user x ≡ b.is_user x)
    → ((x : String) → a.is_topic x ≡ b.is_topic x)
    → ((x y : String) → a.follows x y ≡ b.follows x y)
    → a ≡ b
view-eq a b h k l i = record {
  is_user = λ x. h x i;
  is_topic = λ x. k x i;
  follows = λ x y. l x y i;
}

outcome_cases :
    (op : Operation) (a : Following) (r : Result (Unit {0}) × World)
    → (r.0 ≡ ok tt → (allowed op a ≡ true) × (view r.1.db ≡ effect op a))
    → ((e : Error) → r.0 ≡ err e → view r.1.db ≡ a)
    → IsStep op (is_ok r.0) a (view r.1.db)
outcome_cases op a (ok tt, w) h k = h refl
outcome_cases op a (err e, w) h k = k e refl

-- What an INSERT leaves.
pub add_user-ok :
    (id : String) (w : World)
    → let r = perform (add_user id) w in
      r.0 ≡ ok tt
      → (has_user id w.db ≡ false)
        × (r.1.db
            ≡ record w.db { users = w.db.users ++ record { id = id; created_at = w.clock } ∷ [] })
unfolding create_user create_user_text statement ◌>>=◌
add_user-ok id w h = (ground arith, ground arith)

pub add_user-err :
    (id : String) (w : World) (e : Error)
    → let r = perform (add_user id) w in r.0 ≡ err e → r.1.db ≡ w.db
unfolding create_user create_user_text statement ◌>>=◌
add_user-err id w e h = ground arith

pub follow-ok :
    (u t : String) (w : World)
    → let r = perform (follow u t) w in
      r.0 ≡ ok tt
      → (s : UserTopicSubscription) × (s.user_id ≡ u)
        × (s.topic_id ≡ t)
        × (s.id ≡ subscription_id u t)
        × (allowed (follow u t) (view w.db) ≡ true)
        × (r.1.db ≡ record w.db { subscriptions = w.db.subscriptions ++ s ∷ [] })
unfolding subscribe_user_to_topic subscribe_text statement ◌>>=◌
follow-ok u t w h = (
  record { id = subscription_id u t; user_id = u; topic_id = t; created_at = w.clock },
  refl,
  refl,
  refl,
  ground arith,
  ground arith,
)

pub follow-err :
    (u t : String) (w : World) (e : Error)
    → let r = perform (follow u t) w in r.0 ≡ err e → r.1.db ≡ w.db
unfolding subscribe_user_to_topic subscribe_text statement ◌>>=◌
follow-err u t w e h = ground arith

pub add_topic-ok :
    (t : Topic) (w : World)
    → let r = perform (add_topic t) w in
      r.0 ≡ ok tt
      → (has_topic (trim_space t.id) w.db ≡ false)
        × (r.1.db ≡ record w.db {
          topics = w.db.topics ++ record { id = trim_space t.id; name = trim_space t.name } ∷ [];
        })
unfolding create_topic create_topic_text statement ◌>>=◌
add_topic-ok t w h = (ground arith, ground arith)

pub add_topic-err :
    (t : Topic) (w : World) (e : Error)
    → let r = perform (add_topic t) w in r.0 ≡ err e → r.1.db ≡ w.db
unfolding create_topic create_topic_text statement ◌>>=◌
add_topic-err t w e h = ground arith

-- A DELETE that touches a row, and one that does not.
pub remove_user-ok :
    (id : String) (w : World)
    → let r = perform (remove_user id) w in
      r.0 ≡ ok tt
      → (now : ℕ) × (has_user id w.db ≡ true) × (r.1.db ≡ (delete_user_text id now w.db).1)
unfolding delete_user delete_user_text statement ◌>>=◌
remove_user-ok id w h = ((advance w).clock, ground arith, ground arith)

pub remove_user-err :
    (id : String) (w : World) (e : Error)
    → let r = perform (remove_user id) w in r.0 ≡ err e → r.1.db ≡ w.db
unfolding delete_user delete_user_text statement ◌>>=◌
remove_user-err id w e h = ground (arith, count_if_none (λ (u : User). u.id == id) w.db.users)

pub remove_topic-ok :
    (id : String) (w : World)
    → let r = perform (remove_topic id) w in
      r.0 ≡ ok tt
      → (now : ℕ) × (has_topic id w.db ≡ true) × (r.1.db ≡ (delete_topic_text id now w.db).1)
unfolding delete_topic delete_topic_text statement ◌>>=◌
remove_topic-ok id w h = ((advance w).clock, ground arith, ground arith)

pub remove_topic-err :
    (id : String) (w : World) (e : Error)
    → let r = perform (remove_topic id) w in r.0 ≡ err e → r.1.db ≡ w.db
unfolding delete_topic delete_topic_text statement ◌>>=◌
remove_topic-err id w e h = ground (arith, count_if_none (λ (t : Topic). t.id == id) w.db.topics)

pub unfollow-ok :
    (u t : String) (w : World)
    → let r = perform (unfollow u t) w in
      r.0 ≡ ok tt
      → (exists (same_pair u t) w.db.subscriptions ≡ true)
        × (r.1.db ≡ (unsubscribe_text u t 0 w.db).1)
unfolding unsubscribe_user_from_topic unsubscribe_text statement ◌>>=◌
unfollow-ok u t w h =
    (ground (arith, count_if_some (same_pair u t) w.db.subscriptions), ground arith)

pub unfollow-err :
    (u t : String) (w : World) (e : Error)
    → let r = perform (unfollow u t) w in r.0 ≡ err e → r.1.db ≡ w.db
unfolding unsubscribe_user_from_topic unsubscribe_text statement ◌>>=◌
unfollow-err u t w e h = ground (arith, select_all (same_pair u t) w.db.subscriptions)

-- What a DELETE leaves of the view.
removed_user :
    (id : String) (now : ℕ) (d : Db)
    → has_user id d ≡ true
    → view (delete_user_text id now d).1 ≡ effect (remove_user id) (view d)
unfolding delete_user_text
removed_user id now d there = rw there (
    view-eq _ _ (λ x. exists-select (λ (u : User). u.id == x) _ _ d.users (λ u. same_id x id u.id))
      (λ x. refl)
      (λ x y.
        exists-select (same_pair x y) _ _ d.subscriptions
          (λ s h. same_id x id s.user_id (ground arith))))

removed_topic :
    (id : String) (now : ℕ) (d : Db)
    → has_topic id d ≡ true
    → view (delete_topic_text id now d).1 ≡ effect (remove_topic id) (view d)
unfolding delete_topic_text
removed_topic id now d there = rw there (
    view-eq _ _ (λ x. refl)
      (λ x. exists-select (λ (t : Topic). t.id == x) _ _ d.topics (λ t. same_id x id t.id))
      (λ x y.
        exists-select (same_pair x y) _ _ d.subscriptions
          (λ s h. same_id y id s.topic_id (ground arith))))

unfollowed :
    (u t : String) (d : Db) → view (unsubscribe_text u t 0 d).1 ≡ effect (unfollow u t) (view d)
unfolding unsubscribe_text
unfollowed u t d =
    view-eq _ _ (λ x. refl) (λ x. refl)
      (λ x y.
        exists-select (same_pair x y) _ _ d.subscriptions
          (λ s h. ground (arith, eq_iff s.user_id x, eq_iff s.topic_id y)))

perform-IsStep :
    (op : Operation) (w : World)
    → IsStep op (is_ok (perform op w).0) (view w.db) (view (perform op w).1.db)
perform-IsStep (add_user id) w =
    outcome_cases (add_user id) (view w.db) (perform (add_user id) w)
      (λ h.
        let (free, after) = add_user-ok id w h in
        (
          ground arith,
          ap view after
              ∙ view-eq _ _ (λ x. exists-append (λ (u : User). u.id == x) w.db.users _) (λ x. refl)
                  (λ x y. refl),
        ))
      (λ e h. ap view (add_user-err id w e h))
perform-IsStep (remove_user id) w =
    outcome_cases (remove_user id) (view w.db) (perform (remove_user id) w)
      (λ h.
        let (now, there, after) = remove_user-ok id w h in
        (there, ap view after ∙ removed_user id now w.db there))
      (λ e h. ap view (remove_user-err id w e h))
perform-IsStep (add_topic t) w =
    outcome_cases (add_topic t) (view w.db) (perform (add_topic t) w)
      (λ h.
        let (free, after) = add_topic-ok t w h in
        (
          ground arith,
          ap view after
              ∙ view-eq _ _ (λ x. refl)
                  (λ x. exists-append (λ (u : Topic). u.id == x) w.db.topics _) (λ x y. refl),
        ))
      (λ e h. ap view (add_topic-err t w e h))
perform-IsStep (remove_topic id) w =
    outcome_cases (remove_topic id) (view w.db) (perform (remove_topic id) w)
      (λ h.
        let (now, there, after) = remove_topic-ok id w h in
        (there, ap view after ∙ removed_topic id now w.db there))
      (λ e h. ap view (remove_topic-err id w e h))
perform-IsStep (follow u t) w =
    outcome_cases (follow u t) (view w.db) (perform (follow u t) w)
      (λ h.
        let (s, of_user, of_topic, key, free, after) = follow-ok u t w h in
        (
          free,
          ap view after
              ∙ view-eq _ _ (λ x. refl) (λ x. refl)
                  (λ x y.
                    rw (exists-append (same_pair x y) w.db.subscriptions s, of_user, of_topic)
                      refl),
        ))
      (λ e h. ap view (follow-err u t w e h))
perform-IsStep (unfollow u t) w =
    outcome_cases (unfollow u t) (view w.db) (perform (unfollow u t) w)
      (λ h.
        let (there, after) = unfollow-ok u t w h in (there, ap view after ∙ unfollowed u t w.db))
      (λ e h. ap view (unfollow-err u t w e h))

-- A history: each operation with whether it succeeds.
abbrev pub history : List Operation → World → List (Operation × Bool)
history [] w = []
history (op ∷ ops) w = (op, is_ok (perform op w).0) ∷ history ops (perform op w).1

abbrev pub perform_all : List Operation → World → World
perform_all [] w = w
perform_all (op ∷ ops) w = perform_all ops (perform op w).1

-- The abstract machine takes those that succeeded, if they are allowed.
abbrev pub replay : List (Operation × Bool) → Following → Option Following
replay [] a = some a
replay ((op, true) ∷ rest) a =
    let next = replay rest (effect op a) in if allowed op a then next else none
replay ((op, false) ∷ rest) a = replay rest a

replay-IsStep :
    (op : Operation) (done : Bool) (rest : List (Operation × Bool)) (a b : Following)
    → IsStep op done a b
    → replay ((op, done) ∷ rest) a ≡ replay rest b
replay-IsStep op true rest a b (may, same) = rw (may, same) refl
replay-IsStep op false rest a b same = rw same refl

-- The store refines the abstract view: whatever users, topics and subscriptions are created and
-- deleted in whatever order, and whatever statements fail, the operations that succeed are allowed
-- for the abstract view and take it to that of the tables, and those that fail leave it as it was.
pub directory_refines :
    (ops : List Operation) (w : World)
    → replay (history ops w) (view w.db) ≡ some (view (perform_all ops w).db)
directory_refines [] w = refl
directory_refines (op ∷ ops) w =
    replay-IsStep op _ (history ops (perform op w).1) _ _ (perform-IsStep op w)
    ∙ directory_refines ops (perform op w).1
