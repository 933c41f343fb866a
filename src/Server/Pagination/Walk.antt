-- ===== src/Server/Pagination/Walk.antt =====
-- A client of a list route that follows the cursors from page to page.
use pushboy.Prelude.{
  ℕ, zero, suc, ◌+◌, ◌<◌, String, ◌≡◌, refl, ap, sym, subst, ◌∙◌, true, false, not, Option, none,
  some, List, [], ◌∷◌, ◌++◌, map, take, drop, length, leb, ltb, eqb, arith, All, Bool-cases, inl,
  inr, deadline, Result, ok, err, take_all, ◌==◌, if◌then◌else◌, length-drop, ltb→lt,
}
use pushboy.Storage.Paging.{Collation, get_elem?}
use pushboy.Storage.Paging.Walk.{get_elem?-some}
use pushboy.Storage.Paging.Batches.{take-take, length-take_lt, get_elem?-take, All-get_elem?}
use pushboy.Storage.Listings.{PageCursor, PageQuery, list_page, newest_first, behind}
use pushboy.Storage.Listings.Newest.{
  IsDistinct, newest_first_sorted, behind-newest_first, behind_elem, All-newest_first,
  length-newest_first, IsNewestFirst,
}
use pushboy.Server.Pagination.{
  Codec, ListResponse, make_mapped_list_response, encode_cursor, parse_limit, parse_cursor,
  page_query_from_request,
}
use pushboy.Server.Pagination.Cursor.{parse_cursor-encode_cursor}
use pushboy.Server.Pagination.Pages.{parse_limit_bounds}

suc_add : (m n : ℕ) → suc (m + n) ≡ suc m + n
suc_add m n = omega arith

add_suc : (m n : ℕ) → m + suc n ≡ suc (m + n)
add_suc m n = omega arith

add_one : (n : ℕ) → n + 1 ≡ suc n
add_one n = omega arith

leb_flip : (n m : ℕ) → leb m n ≡ not (ltb n m)
leb_flip n m = ground arith

module _ {A : Type 0} where
  get_elem?-drop : (m n : ℕ) (xs : List A) → get_elem? (drop m xs) n ≡ get_elem? xs (m + n)
  get_elem?-drop zero n xs = ground arith
  get_elem?-drop (suc m) n [] = refl
  get_elem?-drop (suc m) n (x ∷ xs) =
      subst (λ (k : ℕ). get_elem? (drop m xs) n ≡ get_elem? (x ∷ xs) k) (suc_add m n)
        (get_elem?-drop m n xs)

  drop_none : (n : ℕ) → drop {A = A} n [] ≡ []
  drop_none zero = refl
  drop_none (suc n) = refl

  drop-drop : (n m : ℕ) (xs : List A) → drop n (drop m xs) ≡ drop (m + n) xs
  drop-drop n zero xs = ground arith
  drop-drop n (suc m) [] = drop_none n ∙ sym (drop_none (suc m + n))
  drop-drop n (suc m) (x ∷ xs) =
      subst (λ (k : ℕ). drop n (drop m xs) ≡ drop k (x ∷ xs)) (suc_add m n) (drop-drop n m xs)

map_halves :
    {A B : Type 0} (f : A → B) (n : ℕ) (xs : List A)
    → map f (take n xs) ++ map f (drop n xs) ≡ map f xs
map_halves f zero xs = refl
map_halves f (suc n) [] = refl
map_halves f (suc n) (x ∷ xs) = ap (◌∷◌ (f x)) (map_halves f n xs)

module _ {A : Type 0} (key : A → ℕ × String) where
  -- A time and an id that are not zero.
  abbrev pub HasCursor : A → Type 0
  HasCursor x = (eqb (key x).0 0 ≡ false) × (((key x).1 == "") ≡ false)

-- What a client makes of a page and of the pages after it.
module _ {B : Type 0} where
  abbrev pub gathered : Result (ListResponse B) → Result (List B) → Result (List B)
  gathered (err e) rest = err e
  gathered (ok page) (err e) = if page.has_more then err e else ok page.items
  gathered (ok page) (ok rest) = ok (if page.has_more then page.items ++ rest else page.items)

  abbrev pub cursor_of : Result (ListResponse B) → String
  cursor_of (err e) = ""
  cursor_of (ok page) = page.next_cursor

  pub gathered_last :
      (page : ListResponse B) (rest : Result (List B))
      → page.has_more ≡ false
      → gathered (ok page) rest ≡ ok page.items
  gathered_last page (ok xs) h = rw h refl
  gathered_last page (err e) h = rw h refl

module _ {A B : Type 0} (codec : Codec) (atoi : String → Option ℕ) (c : Collation)
    (key : A → ℕ × String) (f : A → B) (route : String) (rows : List A) where
  abbrev pub answer : Result (PageQuery × ℕ) → Result (ListResponse B)
  answer (err e) = err e
  answer (ok (q, limit)) =
      make_mapped_list_response codec key f (list_page key c q rows) limit route none

  -- What a list route answers to a limit and a cursor, as texts.
  unfoldable pub fetch : String → String → Result (ListResponse B)
  unfolding page_query_from_request list_page make_mapped_list_response
  fetch limit cursor = answer (page_query_from_request codec atoi limit cursor route)

  -- The items of all pages, in at most so many requests.
  unfoldable pub read_pages : ℕ → String → String → Result (List B)
  unfolding fetch
  read_pages zero limit cursor = err deadline
  read_pages (suc fuel) limit cursor =
      let page = fetch limit cursor in gathered page (read_pages fuel limit (cursor_of page))

  abbrev pub sorted_rows : List A
  sorted_rows = newest_first key c rows

  -- The cursor that stands behind the first rows, as a text.
  abbrev IsBehind : ℕ → String → Type 0
  IsBehind m cursor =
      (k : PageCursor) × (parse_cursor codec cursor route none ≡ ok k)
      × (newest_first key c (behind key c k rows) ≡ drop m sorted_rows)

  start-IsBehind : IsBehind 0 ""
  unfolding parse_cursor
  start-IsBehind = (record { sort_value = 0; id = "" }, refl, refl)

  elem-IsBehind :
      (n : ℕ) (z : A)
      → IsDistinct key c rows
      → HasCursor key z
      → get_elem? sorted_rows n ≡ some z
      → IsBehind (suc n) (encode_cursor codec route none (key z).0 (key z).1)
  elem-IsBehind n z d h e = (
    record { sort_value = (key z).0; id = (key z).1 },
    parse_cursor-encode_cursor codec route none (key z).0 (key z).1 h.0 h.1,
    rw h.0 (
        behind-newest_first key c (key z) rows
        ∙ behind_elem key c n sorted_rows z (newest_first_sorted key c rows d) e),
  )

  -- The page behind a cursor.
  fetch_lem :
      (limit cursor : String) (n m : ℕ)
      → parse_limit atoi limit ≡ ok n
      → IsBehind m cursor
      → fetch limit cursor
        ≡ make_mapped_list_response codec key f (take (suc n) (drop m sorted_rows)) n route none
  unfolding fetch page_query_from_request list_page
  fetch_lem limit cursor n m l (k, read, same) =
      rw (l, read)
        (ap (λ (xs : List A). make_mapped_list_response codec key f xs n route none)
          (ap (take (n + 1)) same ∙ ap (λ (j : ℕ). take j (drop m sorted_rows)) (add_one n)))

  page_more :
      (n : ℕ) (xs : List A) (z : A)
      → ltb (suc n) (length xs) ≡ true
      → get_elem? xs n ≡ some z
      → make_mapped_list_response codec key f (take (suc (suc n)) xs) (suc n) route none
        ≡ ok (record {
          items = map f (take (suc n) xs);
          next_cursor = encode_cursor codec route none (key z).0 (key z).1;
          has_more = true;
        })
  unfolding make_mapped_list_response
  page_more n xs z h e =
      rw
        (
          leb_flip (suc n) (length (take (suc (suc n)) xs)),
          length-take_lt (suc n) xs,
          h,
          get_elem?-take n xs,
          e,
          take-take (suc n) xs,
        )
        refl

  page_last :
      (n : ℕ) (xs : List A)
      → ltb n (length xs) ≡ false
      → make_mapped_list_response codec key f (take (suc n) xs) n route none
        ≡ ok (record { items = map f xs; next_cursor = ""; has_more = false })
  unfolding make_mapped_list_response
  page_last n xs h =
      rw
        (
          leb_flip n (length (take (suc n) xs)),
          length-take_lt n xs,
          h,
          take_all (suc n) xs (ground arith),
        )
        refl

  read_on :
      (fuel n m : ℕ) (limit cursor : String)
      → parse_limit atoi limit ≡ ok n
      → IsDistinct key c rows
      → All (HasCursor key) rows
      → IsBehind m cursor
      → length (drop m sorted_rows) < fuel
      → read_pages fuel limit cursor ≡ ok (map f (drop m sorted_rows))
  unfolding read_pages
  read_on zero n m limit cursor l d h b k = absurd (omega arith)
  read_on (suc fuel) zero m limit cursor l d h b k =
      absurd (omega (arith, parse_limit_bounds atoi limit zero l))
  read_on (suc fuel) (suc n) m limit cursor l d h b k =
      elim (Bool-cases (ltb (suc n) (length (drop m sorted_rows)))) [
        | inl more ↦
            let rest = get_elem?-some n (drop m sorted_rows) (ground arith) in
            let last = rest.0 in
            let there : get_elem? sorted_rows (m + n) ≡ some last =
              sym (get_elem?-drop m n sorted_rows) ∙ rest.1 in
            let again : drop (suc n) (drop m sorted_rows) ≡ drop (suc (m + n)) sorted_rows =
              drop-drop (suc n) m sorted_rows ∙ ap (λ (j : ℕ). drop j sorted_rows) (add_suc m n) in
            let next =
              read_on fuel (suc n) (suc (m + n)) limit
                (encode_cursor codec route none (key last).0 (key last).1) l d h
                (elem-IsBehind (m + n) last d (has_cursor (m + n) last h there) there)
                (omega (
                  arith,
                  length-drop (suc (m + n)) sorted_rows,
                  length-drop m sorted_rows,
                  ltb→lt (suc n) (length (drop m sorted_rows)) more,
                  k,
                )) in
            rw
              (
                fetch_lem limit cursor (suc n) m l b,
                page_more n (drop m sorted_rows) last more rest.1,
                next,
              )
              (ap (λ (ys : List B). ok ys)
                (ap (λ (ys : List A). map f (take (suc n) (drop m sorted_rows)) ++ map f ys)
                    (sym again)
                  ∙ map_halves f (suc n) (drop m sorted_rows)))
        | inr done ↦
            rw (fetch_lem limit cursor (suc n) m l b, page_last (suc n) (drop m sorted_rows) done)
              (gathered_last
                (record { items = map f (drop m sorted_rows); next_cursor = ""; has_more = false })
                _ refl)
      ]
    where
      has_cursor :
          (j : ℕ) (z : A)
          → All (HasCursor key) rows
          → get_elem? sorted_rows j ≡ some z
          → HasCursor key z
      has_cursor j z h e =
          All-get_elem? (HasCursor key) sorted_rows j z
            (All-newest_first key c (HasCursor key) rows h) e

  -- A client of a list route that starts without a cursor and follows the cursors of the pages gets
  -- every row once, the newest first, whatever limit it asks for that is allowed, if no two rows have
  -- one time and id, none has the zero time or an empty id, and the rows do not change meanwhile; it
  -- needs no more requests than one above the number of rows.
  pub read_pages_lem :
      (fuel n : ℕ) (limit : String)
      → parse_limit atoi limit ≡ ok n
      → IsDistinct key c rows
      → All (HasCursor key) rows
      → length rows < fuel
      → (read_pages fuel limit "" ≡ ok (map f sorted_rows)) × IsNewestFirst key c sorted_rows
  read_pages_lem fuel n limit l d h k = (
    read_on fuel n 0 limit "" l d h start-IsBehind (omega (arith, length-newest_first key c rows)),
    newest_first_sorted key c rows d,
  )
