-- ===== src/Server/Pagination/Pages.antt =====
-- What a page of a list shows, given one row more than it may have.
use pushboy.Prelude.{
  ℕ, zero, suc, ◌≤◌, ◌<◌, String, ◌≡◌, refl, ap, sym, true, false, ◌↔◌, Option, none, some, List,
  map, take, length, leb, arith, Bool-cases, inl, inr, ok, take_all, ◌==◌,
}
use pushboy.Model.Push.{NotificationJobStatus}
use pushboy.Storage.Paging.{get_elem?}
use pushboy.Storage.Paging.Walk.{get_elem?-some}
use pushboy.Server.Pagination.{
  Codec, ListResponse, make_mapped_list_response, encode_cursor, parse_limit, limit_of,
}

limit_of_bounds : (o : Option ℕ) (n : ℕ) → limit_of o ≡ ok n → (0 < n) × (n ≤ 200)
limit_of_bounds none n h = cc
limit_of_bounds (some m) n h = ground arith

-- A limit is read only if it is between 1 and 200.
pub parse_limit_bounds :
    (atoi : String → Option ℕ) (raw : String) (n : ℕ)
    → parse_limit atoi raw ≡ ok n
    → (0 < n) × (n ≤ 200)
unfolding parse_limit
parse_limit_bounds atoi raw n h = elim (Bool-cases (raw == "")) [
  | inl e ↦ default n (rw e at h)
  | inr e ↦ limit_of_bounds (atoi raw) n (rw e at h)
]
  where
    default : (n : ℕ) → ok 50 ≡ ok n → (0 < n) × (n ≤ 200)
    default n h = ground arith

module _ {A B : Type 0} (codec : Codec) (key : A → ℕ × String) (f : A → B) where
  -- The page that a list route sends.
  abbrev Shown : List A → ℕ → String → Option NotificationJobStatus → Type 0
  Shown items limit route status =
      (page : ListResponse B) × (make_mapped_list_response codec key f items limit route status
        ≡ ok page)
      × (page.items ≡ map f (take limit items))
      × (page.has_more ≡ true ↔ limit < length items)
      × (page.has_more ≡ true
          → (last : A) × (rest : ℕ) × (suc rest ≡ limit)
            × (get_elem? items rest ≡ some last)
            × (page.next_cursor ≡ encode_cursor codec route status (key last).0 (key last).1))

  -- A page with a limit above 0 never fails; it shows the first rows up to the limit, says that there
  -- are more exactly if there are, and its cursor is made of the key of its last row.
  pub make_mapped_list_response_lem :
      (items : List A) (limit : ℕ) (route : String) (status : Option NotificationJobStatus)
      → 0 < limit
      → Shown items limit route status
  unfolding make_mapped_list_response
  make_mapped_list_response_lem items limit route status h =
      elim (Bool-cases (leb (length items) limit)) [
        | inl e ↦ short e
        | inr e ↦ long limit h (ground arith) e
      ]
    where
      short : leb (length items) limit ≡ true → Shown items limit route status
      short e = (
        record { items = map f items; next_cursor = ""; has_more = false },
        rw e refl,
        ap (map f) (sym (take_all limit items (ground arith))),
        ((λ k. cc), (λ k. ground arith)),
        (λ k. cc),
      )

      long :
          (limit : ℕ)
          → 0 < limit
          → limit < length items
          → leb (length items) limit ≡ false
          → Shown items limit route status
      long zero p l e = absurd (omega arith)
      long (suc n) p l e =
          let z = get_elem?-some n items (omega arith) in
          (
            record {
              items = map f (take (suc n) items);
              next_cursor = encode_cursor codec route status (key z.0).0 (key z.0).1;
              has_more = true;
            },
            rw (e, z.1) refl,
            refl,
            ((λ k. l), (λ k. refl)),
            (λ k. (z.0, n, refl, z.1, refl)),
          )
