-- ===== src/Server/Handlers/Users/Walk.antt =====
-- A client that reads all users by the route /v1/users.
use pushboy.Prelude.{
  Option, ℕ, zero, suc, ◌<◌, String, ◌≡◌, refl, sym, ◌∙◌, List, map, length, arith, All, Bool-cases,
  inl, inr, deadline, panic, Result, ok, err, attempt, ◌>>=◌,
}
use pushboy.Storage.World.{World, advance, IsReliable, advance-IsReliable, statement_reliable}
use pushboy.Storage.Paging.{Collation}
use pushboy.Storage.Listings.{PageQuery, list_users, newest_first, user_key}
use pushboy.Storage.Listings.Newest.{IsDistinct, IsNewestFirst}
use pushboy.Server.Pagination.{Codec, ListResponse, page_query_from_request, parse_limit}
use pushboy.Server.Pagination.Walk.{
  fetch, read_pages, gathered, gathered_last, cursor_of, answer, HasCursor, read_pages_lem,
}
use pushboy.Server.Responses.{Body, Response, respond, UserResponse, to_user_response}
use pushboy.Server.Handlers.Users.{users_page, handle_list_users}

module _ (codec : Codec) (c : Collation) (atoi : String → Option ℕ) where
  abbrev pub users_of : Result Response → Result (ListResponse UserResponse)
  users_of (err e) = err e
  users_of (ok resp) = elim resp.body [ Body.users page ↦ ok page | _ ↦ err panic ]

  -- The users of all pages, each page read by a request, in at most so many requests.
  unfoldable pub read_users : ℕ → String → String → World → Result (List UserResponse)
  unfolding handle_list_users
  read_users zero limit cursor w = err deadline
  read_users (suc fuel) limit cursor w =
      let r = handle_list_users codec c atoi limit cursor w in
      gathered (users_of r.0) (read_users fuel limit (cursor_of (users_of r.0)) r.1)

  users_page_lem :
      (q : Result (PageQuery × ℕ)) (w : World) (page : ListResponse UserResponse)
      → IsReliable w
      → answer codec atoi c user_key (to_user_response codec) "/v1/users" w.db.users q ≡ ok page
      → users_page codec c atoi q w ≡ (ok (respond (Body.users page) 200), advance w)
  unfolding list_users ◌>>=◌ attempt
  users_page_lem (err e) w page r h = cc
  users_page_lem (ok (q, n)) w page r h = rw (statement_reliable _ w r, h) refl

  handle_list_users_lem :
      (limit cursor : String) (w : World) (page : ListResponse UserResponse)
      → IsReliable w
      → fetch codec atoi c user_key (to_user_response codec) "/v1/users" w.db.users limit cursor
        ≡ ok page
      → handle_list_users codec c atoi limit cursor w
        ≡ (ok (respond (Body.users page) 200), advance w)
  unfolding handle_list_users fetch
  handle_list_users_lem limit cursor w page r h =
      users_page_lem (page_query_from_request codec atoi limit cursor "/v1/users") w page r h

  read_users-read_pages :
      (fuel : ℕ) (limit cursor : String) (w : World) (us : List UserResponse)
      → IsReliable w
      → read_pages codec atoi c user_key
          (to_user_response codec)
          "/v1/users"
          w.db.users
          fuel
          limit
          cursor
        ≡ ok us
      → read_users fuel limit cursor w ≡ ok us
  unfolding read_pages read_users
  read_users-read_pages zero limit cursor w us r h = h
  read_users-read_pages (suc fuel) limit cursor w us r h =
      go _ refl _ refl
        (λ next xs. read_users-read_pages fuel limit next (advance w) xs (advance-IsReliable w r)) h
    where
      go :
          (p : Result (ListResponse UserResponse))
          → fetch codec atoi c user_key (to_user_response codec) "/v1/users" w.db.users limit cursor
            ≡ p
          → (rest : Result (List UserResponse))
          → read_pages codec atoi c user_key
              (to_user_response codec)
              "/v1/users"
              w.db.users
              fuel
              limit
              (cursor_of p)
            ≡ rest
          → ((next : String) (xs : List UserResponse)
              → read_pages codec atoi c user_key
                  (to_user_response codec)
                  "/v1/users"
                  w.db.users
                  fuel
                  limit
                  next
                ≡ ok xs
              → read_users fuel limit next (advance w) ≡ ok xs)
          → gathered p rest ≡ ok us
          → read_users (suc fuel) limit cursor w ≡ ok us
      go (err e) same rest more later k = cc
      go (ok page) same (ok xs) more later k =
          rw (handle_list_users_lem limit cursor w page r same, later page.next_cursor xs more) k
      go (ok page) same (err e) more later k =
          rw (handle_list_users_lem limit cursor w page r same) (elim (Bool-cases page.has_more) [
            | inl t ↦ ground arith
            | inr f ↦ gathered_last page _ f ∙ sym (gathered_last page (err e) f) ∙ k
          ])

  -- A client that asks for the users, with a limit that is allowed, and then follows the cursors of the
  -- answers gets every user once, the newest first, if no statement is lost, no two users have one time
  -- and id, none has the zero time or an empty id, and the users do not change meanwhile; it needs no
  -- more requests than one above the number of users.
  pub read_users_lem :
      (fuel n : ℕ) (limit : String) (w : World)
      → parse_limit atoi limit ≡ ok n
      → IsReliable w
      → IsDistinct user_key c w.db.users
      → All (HasCursor user_key) w.db.users
      → length w.db.users < fuel
      → let us = newest_first user_key c w.db.users in
        (read_users fuel limit "" w ≡ ok (map (to_user_response codec) us))
        × IsNewestFirst user_key c us
  read_users_lem fuel n limit w l r d h k =
      let all =
        read_pages_lem codec atoi c user_key (to_user_response codec) "/v1/users" w.db.users fuel n
          limit l d h k in
      (read_users-read_pages fuel limit "" w _ r all.0, all.1)
