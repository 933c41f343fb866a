-- ===== src/Tests/Lists.antt =====
-- A client reads three users, one to a page.
use mathlib.Core.Path.{ap}
use pushboy.Prelude.{
  ℕ, String, ◌≡◌, ◌≢◌, refl, false, Option, none, some, List, [], ◌∷◌, map, ok, arith, ◌==◌, eq_iff,
  if◌then◌else◌,
}
use pushboy.Storage.Tables.{User}
use pushboy.Storage.World.{World}
use pushboy.Storage.Listings.{newest_first, user_key}
use pushboy.Storage.Listings.Newest.{IsNewestFirst}
use pushboy.Server.Pagination.{parse_limit}
use pushboy.Server.Responses.{to_user_response}
use pushboy.Server.Handlers.Users.Walk.{read_users, read_users_lem}
use pushboy.Tests.Plain.{plain}
use pushboy.Tests.ByOrder.{by_order}
use pushboy.Tests.Samples.{a_world, a_db}

abbrev at_time : String → ℕ → User
at_time id t = record { id = id; created_at = t }

abbrev three : List User
three = at_time "ann" 1 ∷ at_time "cat" 3 ∷ at_time "bob" 3 ∷ []

abbrev a_full_world : World
a_full_world = record a_world { db = record a_db { users = three } }

abbrev read_one : String → Option ℕ
read_one s = if s == "1" then some 1 else none

ids_differ :
    (t u : ℕ) (i j : String) → (i == j) ≡ false → user_key (at_time i t) ≢ user_key (at_time j u)
ids_differ t u i j h e = let same = ap (λ (k : ℕ × String). k.1) e in ground (arith, eq_iff i j)

read_users_lem_example :
    (read_users plain by_order read_one 4 "1" "" a_full_world
      ≡ ok (map (to_user_response plain) (newest_first user_key by_order three)))
    × IsNewestFirst user_key by_order (newest_first user_key by_order three)
read_users_lem_example =
    read_users_lem plain by_order read_one 4 1 "1" a_full_world one (refl, (refl, tt))
      (
        (ids_differ 1 3 "ann" "cat" refl, (ids_differ 1 3 "ann" "bob" refl, tt)),
        ((ids_differ 3 3 "cat" "bob" refl, tt), (tt, tt)),
      )
      ((refl, refl), ((refl, refl), ((refl, refl), tt))) (omega arith)
  where
    one : parse_limit read_one "1" ≡ ok 1
    one = unfold parse_limit in refl

newest_test :
    map (λ (u : User). u.id) (newest_first user_key by_order three) ≡ "cat" ∷ "bob" ∷ "ann" ∷ []
unfolding newest_first
newest_test = refl
