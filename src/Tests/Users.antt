-- ===== src/Tests/Users.antt =====
-- A user comes, registers a device and subscribes, and another is deleted.
use mathlib.Core.List.{map}
use pushboy.Prelude.{
  ℕ, ◌≡◌, refl, true, false, List, [], ◌∷◌, some, ok, err, already_exists, trim_space, ◌>>=◌,
}
use pushboy.Storage.World.{World, statement}
use pushboy.Storage.Topics.{create_topic, create_topic_text}
use pushboy.Storage.Topics.Following.{
  Operation, add_user, add_topic, follow, perform, perform_all, history, replay, view,
  directory_refines,
}
use pushboy.Storage.Topics.Allowed.{allowed_succeeds}
use pushboy.Model.Push.{apns}
use pushboy.Storage.Tables.{Token, UserTopicSubscription}
use pushboy.Storage.Directory.{
  create_user, create_user_text, delete_user_text, create_token_text, subscribe_user_to_topic,
  subscribe_text, subscription_id,
}
use pushboy.Storage.Topics.References.{
  IsReferenced, Change, delete_user, create_token, subscribe, changes, changes-IsReferenced,
}
use pushboy.Tests.Samples.{a_db, a_world}

abbrev a_device : Token
a_device = record {
  id = "t9";
  user_id = "bob";
  platform = apns;
  token = "b0b";
  created_at = 3;
  is_deleted = false;
}

abbrev a_follow : UserTopicSubscription
a_follow = record { id = "s1"; user_id = "bob"; topic_id = "news"; created_at = 3 }

abbrev some_changes : List (ℕ × Change)
some_changes =
    (2, create_token a_device)
    ∷ (2, Change.create_user (record { id = "bob"; created_at = 2 }))
    ∷ (3, create_token a_device)
    ∷ (4, subscribe a_follow)
    ∷ (5, delete_user "ann")
    ∷ []

changes-IsReferenced_example : IsReferenced (changes some_changes a_db)
changes-IsReferenced_example =
    changes-IsReferenced some_changes a_db
      (record { of_tokens = (refl, (refl, (refl, tt))); of_subscriptions = tt; of_topics = tt })

-- The device is registered on the second try, and the tokens of the deleted user are gone.
tokens_left : (changes some_changes a_db).tokens ≡ a_device ∷ []
unfolding create_user_text delete_user_text create_token_text subscribe_text
tokens_left = refl

-- Bob comes and follows a new topic; ann does not, since her statement is lost.
abbrev some_operations : List Operation
some_operations =
    add_user "bob"
    ∷ add_topic (record { id = " news "; name = "News" })
    ∷ follow "bob" "news"
    ∷ follow "ann" "news"
    ∷ []

abbrev a_busy_world : World
a_busy_world = record {
  db = a_db;
  clock = 10;
  script =
      record { fails = false; elapsed = 2 }
      ∷ record { fails = false; elapsed = 0 }
      ∷ record { fails = false; elapsed = 1 }
      ∷ record { fails = true; elapsed = 3 }
      ∷ [];
}

directory_refines_example :
    replay (history some_operations a_busy_world) (view a_busy_world.db)
    ≡ some (view (perform_all some_operations a_busy_world).db)
directory_refines_example = directory_refines some_operations a_busy_world

-- What that run gives.
history_test :
    map (λ h. h.1) (history some_operations a_busy_world) ≡ true ∷ true ∷ true ∷ false ∷ []
unfolding create_user create_user_text create_topic create_topic_text subscribe_user_to_topic
    subscribe_text statement trim_space ◌>>=◌
history_test = refl

-- Ann tries again.
allowed_succeeds_example :
    (perform (follow "ann" "news") (perform_all some_operations a_busy_world)).0 ≡ ok tt
unfolding create_user create_user_text create_topic create_topic_text subscribe_user_to_topic
    subscribe_text statement trim_space ◌>>=◌
allowed_succeeds_example =
    allowed_succeeds some_operations (follow "ann" "news") a_busy_world tt
      (tt, (tt, (refl, (refl, tt)))) tt refl refl

-- Ids with colons: user `a:b` cannot follow topic `c` once `a` follows `b:c`.
abbrev colon_operations : List Operation
colon_operations =
    add_user "a"
    ∷ add_user "a:b"
    ∷ add_topic (record { id = "b:c"; name = "One" })
    ∷ add_topic (record { id = "c"; name = "Two" })
    ∷ follow "a" "b:c"
    ∷ []

colon_test :
    (perform (follow "a:b" "c") (perform_all colon_operations a_world)).0 ≡ err already_exists
unfolding create_user create_user_text create_topic create_topic_text subscribe_user_to_topic
    subscribe_text statement trim_space subscription_id ◌>>=◌
colon_test = refl
