-- ===== src/Storage/Paging/Batches.antt =====
-- One batch of the rows that are left behind the cursor, and what it leaves.
use pushboy.Prelude.{
  ℕ, zero, suc, ◌<◌, String, ◌≡◌, refl, sym, ap, subst, ◌∙◌, true, false, some, List, [], ◌∷◌,
  arith, ltb, length, take, drop, All, Bool-cases, inl, inr, ok, take_all, ◌⊎◌,
}
use pushboy.Storage.Paging.{Collation, get_elem?, to_batch, insert_row, order_by, after, page}
use pushboy.Storage.Paging.Walk.{
  after-order_by, IsKeyed, IsOrdered, IsOrdered-order_by, after_elem, get_elem?-some,
}

module _ {A : Type 0} where
  pub get_elem?-take : (n : ℕ) (xs : List A) → get_elem? (take (suc (suc n)) xs) n ≡ get_elem? xs n
  get_elem?-take n [] = refl
  get_elem?-take zero (x ∷ xs) = refl
  get_elem?-take (suc n) (x ∷ xs) = get_elem?-take n xs

  pub take-take : (n : ℕ) (xs : List A) → take n (take (suc n) xs) ≡ take n xs
  take-take zero xs = refl
  take-take (suc n) [] = refl
  take-take (suc n) (x ∷ xs) = ap (◌∷◌ x) (take-take n xs)

  -- One row more than the batch tells whether there are more.
  pub length-take_lt : (n : ℕ) (xs : List A) → ltb n (length (take (suc n) xs)) ≡ ltb n (length xs)
  length-take_lt n [] = refl
  length-take_lt zero (x ∷ xs) = ground arith
  length-take_lt (suc n) (x ∷ xs) = ground (arith, length-take_lt n xs)

  pub All-get_elem? :
      (P : A → Type 0) (ys : List A) (n : ℕ) (z : A) → All P ys → get_elem? ys n ≡ some z → P z
  All-get_elem? P [] n z h e = cc
  All-get_elem? P (y ∷ ys) zero z h e = subst P (ground arith) h.0
  All-get_elem? P (y ∷ ys) (suc n) z h e = All-get_elem? P ys n z h.1 e

module _ {A : Type 0} (key : A → String) (c : Collation) where
  All-after :
      (P : A → Type 0) (cursor : String) (ys : List A) → All P ys → All P (after key c cursor ys)
  All-after P cursor [] h = tt
  All-after P cursor (y ∷ ys) h = elim (Bool-cases (c.lt cursor (key y))) [
    | inl e ↦ rw e (h.0, All-after P cursor ys h.1)
    | inr e ↦ rw e (All-after P cursor ys h.1)
  ]

  IsOrdered-after :
      (cursor : String) (ys : List A) → IsOrdered key c ys → IsOrdered key c (after key c cursor ys)
  IsOrdered-after cursor [] h = tt
  IsOrdered-after cursor (y ∷ ys) h = elim (Bool-cases (c.lt cursor (key y))) [
    | inl e ↦ rw e (All-after _ cursor ys h.0, IsOrdered-after cursor ys h.1)
    | inr e ↦ rw e (IsOrdered-after cursor ys h.1)
  ]

  after-after :
      (k cursor : String) (ys : List A)
      → c.lt cursor k ≡ true
      → after key c k (after key c cursor ys) ≡ after key c k ys
  after-after k cursor [] h = refl
  after-after k cursor (y ∷ ys) h =
      ground (arith, after-after k cursor ys h, c.lt_trans cursor k (key y))

  after-All :
      (cursor : String) (ys : List A)
      → All (λ (y : A). c.lt cursor (key y) ≡ true) (after key c cursor ys)
  after-All cursor [] = tt
  after-All cursor (y ∷ ys) = elim (Bool-cases (c.lt cursor (key y))) [
    | inl e ↦ rw e (e, after-All cursor ys)
    | inr e ↦ rw e (after-All cursor ys)
  ]

  -- What is left to read behind a cursor.
  abbrev pub left : String → List A → List A
  left cursor rows = after key c cursor (order_by key c rows)

  page_lem :
      (cursor : String) (size : ℕ) (rows : List A)
      → page key c cursor size rows ≡ take (suc size) (left cursor rows)
  unfolding page
  page_lem cursor size rows = rw (after-order_by key c cursor rows) refl

  -- Nothing is left out before the empty cursor.
  left_empty :
      (rows : List A) → All (λ (y : A). c.lt "" (key y) ≡ true) rows → after key c "" rows ≡ rows
  left_empty [] h = refl
  left_empty (x ∷ xs) h = ground (arith, left_empty xs h.1)

  IsKeyed-after :
      (rows : List A) → IsKeyed key c rows → All (λ (y : A). c.lt "" (key y) ≡ true) rows
  IsKeyed-after [] h = tt
  IsKeyed-after (x ∷ xs) h = (c.lt_empty (key x) h.0, IsKeyed-after xs h.2)

  pub left_start : (rows : List A) → IsKeyed key c rows → left "" rows ≡ order_by key c rows
  left_start rows h =
      sym (after-order_by key c "" rows)
      ∙ ap (order_by key c) (left_empty rows (IsKeyed-after rows h))

  length-insert_row : (x : A) (ys : List A) → length (insert_row key c x ys) ≡ suc (length ys)
  unfolding insert_row
  length-insert_row x [] = refl
  length-insert_row x (y ∷ ys) = ground (arith, length-insert_row x ys)

  pub length-order_by : (rows : List A) → length (order_by key c rows) ≡ length rows
  unfolding order_by
  length-order_by [] = refl
  length-order_by (x ∷ xs) =
      omega (arith, length-insert_row x (order_by key c xs), length-order_by xs)

  -- A batch that is not the last one.
  abbrev pub IsFull : ℕ → String → List A → A → Type 0
  IsFull size cursor rows z =
      (to_batch key size (page key c cursor size rows)
        ≡ ok (record {
          tokens = take size (left cursor rows);
          next_cursor = key z;
          has_more = true;
        }))
      × (left (key z) rows ≡ drop size (left cursor rows))
      × (size < length (left cursor rows))

  abbrev pub IsLast : ℕ → String → List A → Type 0
  IsLast size cursor rows =
      to_batch key size (page key c cursor size rows)
      ≡ ok (record { tokens = left cursor rows; next_cursor = ""; has_more = false })

  full_lem :
      (n : ℕ) (rows : List A) (z : A)
      → ltb (suc n) (length rows) ≡ true
      → get_elem? rows n ≡ some z
      → to_batch key (suc n) (take (suc (suc n)) rows)
        ≡ ok (record { tokens = take (suc n) rows; next_cursor = key z; has_more = true })
  unfolding to_batch
  full_lem n rows z l e =
      rw (length-take_lt (suc n) rows, l, get_elem?-take n rows, e, take-take (suc n) rows) refl

  full :
      (n : ℕ) (cursor : String) (rows : List A) (z : A)
      → IsKeyed key c rows
      → ltb (suc n) (length (left cursor rows)) ≡ true
      → get_elem? (left cursor rows) n ≡ some z
      → IsFull (suc n) cursor rows z
  full n cursor rows z h l e = (
    ap (to_batch key (suc n)) (page_lem cursor (suc n) rows) ∙ full_lem n (left cursor rows) z l e,
    sym (after-after (key z) cursor (order_by key c rows) before)
        ∙ after_elem key c n (left cursor rows) z sorted e,
    ground arith,
  )
    where
      before : c.lt cursor (key z) ≡ true
      before = All-get_elem? _ (left cursor rows) n z (after-All cursor (order_by key c rows)) e

      sorted : IsOrdered key c (left cursor rows)
      sorted = IsOrdered-after cursor (order_by key c rows) (IsOrdered-order_by key c rows h)

  last_lem :
      (n : ℕ) (rows : List A)
      → ltb n (length rows) ≡ false
      → to_batch key n (take (suc n) rows)
        ≡ ok (record { tokens = rows; next_cursor = ""; has_more = false })
  unfolding to_batch
  last_lem n rows l = rw (take_all (suc n) rows (ground arith), l) refl

  -- A batch is a full one or the last one.
  pub batch_cases :
      (n : ℕ) (cursor : String) (rows : List A)
      → IsKeyed key c rows
      → ((z : A) × IsFull (suc n) cursor rows z) ⊎ IsLast (suc n) cursor rows
  batch_cases n cursor rows h = elim (Bool-cases (ltb (suc n) (length (left cursor rows)))) [
    | inl l ↦
        let z = get_elem?-some n (left cursor rows) (ground arith) in
        inl (z.0, full n cursor rows z.0 h l z.1)
    | inr l ↦ inr (
        ap (to_batch key (suc n)) (page_lem cursor (suc n) rows)
        ∙ last_lem (suc n) (left cursor rows) l)
  ]
