-- ===== src/Workers/FanoutLa/Forward.antt =====
-- A batch of tokens that is not the last one moves the cursor over at least one token.
use pushboy.Prelude.{
  ℕ, zero, suc, ◌<◌, ◌≤◌, String, ◌≡◌, refl, Bool, true, false, not, some, List, [], ◌∷◌, ◌++◌,
  arith, ◌==◌, eq_iff, eq_refl, exists, select, count_if, take, All, ok, Bool-cases, Option-cases,
  inl, inr, if◌then◌else◌, subst,
}
use pushboy.Storage.Tables.{Db, LiveActivityToken, TokenActivity, UserTopicSubscription}
use pushboy.Storage.Paging.{
  Collation, TokenBatch, get_elem?, to_batch, last_of_batch, insert_row, order_by, after, page,
}
use pushboy.Storage.LaTokens.{
  FanoutScope, key, scope_tokens, associated, subscribed, requires_activity_association,
}

-- A token with that id is among those.
abbrev pub IsIn : List LiveActivityToken → LiveActivityToken → Type 0
IsIn xs x = exists (λ (y : LiveActivityToken). y.id == x.id) xs ≡ true

module _ {A : Type 0} (P : A → Type 0) where
  pub All-select : (p : A → Bool) (rows : List A) → All P rows → All P (select p rows)
  All-select p [] h = tt
  All-select p (x ∷ xs) h = elim (Bool-cases (p x)) [
    | inl e ↦ rw e (h.0, All-select p xs h.1)
    | inr e ↦ rw e (All-select p xs h.1)
  ]

  All-append : (xs ys : List A) → All P xs → All P ys → All P (xs ++ ys)
  All-append [] ys h k = k
  All-append (x ∷ xs) ys h k = (h.0, All-append xs ys h.1 k)

  All-take : (n : ℕ) (xs : List A) → All P xs → All P (take n xs)
  All-take zero xs h = tt
  All-take (suc n) [] h = tt
  All-take (suc n) (x ∷ xs) h = (h.0, All-take n xs h.1)

  All-insert_row :
      (k : A → String) (c : Collation) (x : A) (ys : List A)
      → P x
      → All P ys
      → All P (insert_row k c x ys)
  unfolding insert_row
  All-insert_row k c x [] p h = (p, tt)
  All-insert_row k c x (y ∷ ys) p h = elim (Bool-cases (c.lt (k y) (k x))) [
    | inl e ↦ rw e (h.0, All-insert_row k c x ys p h.1)
    | inr e ↦ rw e (p, h)
  ]

  All-order_by : (k : A → String) (c : Collation) (ys : List A) → All P ys → All P (order_by k c ys)
  unfolding order_by
  All-order_by k c [] h = tt
  All-order_by k c (y ∷ ys) h = All-insert_row k c y (order_by k c ys) h.0 (All-order_by k c ys h.1)

  All-get_elem? : (ys : List A) (n : ℕ) (z : A) → All P ys → get_elem? ys n ≡ some z → P z
  All-get_elem? [] n z h e = cc
  All-get_elem? (y ∷ ys) zero z h e = subst P (ground arith) h.0
  All-get_elem? (y ∷ ys) (suc n) z h e = All-get_elem? ys n z h.1 e

module _ (P : LiveActivityToken → Type 0) (xs : List LiveActivityToken) (all : All P xs) where
  All-associated : (id : String) (rows : List TokenActivity) → All P (associated id xs rows)
  All-associated id [] = tt
  All-associated id (a ∷ rest) = elim (Bool-cases (a.activity_id == id)) [
    | inl e ↦ rw e (All-append P _ _ (All-select P _ xs all) (All-associated id rest))
    | inr e ↦ rw e (All-associated id rest)
  ]

  All-subscribed : (id : String) (rows : List UserTopicSubscription) → All P (subscribed id xs rows)
  All-subscribed id [] = tt
  All-subscribed id (s ∷ rest) = elim (Bool-cases (s.topic_id == id)) [
    | inl e ↦ rw e (All-append P _ _ (All-select P _ xs all) (All-subscribed id rest))
    | inr e ↦ rw e (All-subscribed id rest)
  ]

All-if :
    {A : Type 0} (P : A → Type 0) (b : Bool) (xs ys : List A)
    → All P xs
    → All P ys
    → All P (if b then xs else ys)
All-if P true xs ys h k = h
All-if P false xs ys h k = k

-- What holds of all tokens holds of those of a scope.
All-scope_tokens :
    (P : LiveActivityToken → Type 0) (s : FanoutScope) (now : ℕ) (d : Db)
    → All P d.la_tokens
    → All P (scope_tokens s now d)
All-scope_tokens P s now d h =
    All-if P (requires_activity_association s) _ _
      (All-if P (not (s.user_id == "")) _ _
        (All-select P _ _ (All-associated P d.la_tokens h s.activity_id d.la_activities))
        (All-select P _ _ (
          All-subscribed P _ (All-associated P d.la_tokens h s.activity_id d.la_activities)
            s.topic_id d.la_subscriptions)))
      (All-if P (not (s.user_id == "")) _ _ (All-select P _ _ h)
        (All-select P _ _ (All-subscribed P d.la_tokens h s.topic_id d.la_subscriptions)))

All-IsIn_more :
    (x : LiveActivityToken) (xs ys : List LiveActivityToken)
    → All (IsIn xs) ys
    → All (IsIn (x ∷ xs)) ys
All-IsIn_more x xs [] h = tt
All-IsIn_more x xs (y ∷ ys) h = (ground arith, All-IsIn_more x xs ys h.1)

All-IsIn : (xs : List LiveActivityToken) → All (IsIn xs) xs
All-IsIn [] = tt
All-IsIn (x ∷ xs) = (rw (eq_refl x.id) refl, All-IsIn_more x xs xs (All-IsIn xs))

module _ (c : Collation) where
  -- The tokens that are left behind a cursor.
  abbrev pub left_behind : String → List LiveActivityToken → ℕ
  left_behind cursor xs = count_if (λ (x : LiveActivityToken). c.lt cursor x.id) xs

  left_behind_le :
      (a b : String) (xs : List LiveActivityToken)
      → c.lt a b ≡ true
      → left_behind b xs ≤ left_behind a xs
  left_behind_le a b [] h = omega arith
  left_behind_le a b (x ∷ xs) h = ground (arith, left_behind_le a b xs h, c.lt_trans a b x.id h)

  -- A token that was left is not left behind its own id.
  left_behind_lt :
      (a : String) (z : LiveActivityToken) (xs : List LiveActivityToken)
      → c.lt a z.id ≡ true
      → IsIn xs z
      → left_behind z.id xs < left_behind a xs
  left_behind_lt a z [] h m = cc
  left_behind_lt a z (x ∷ xs) h m = elim (Bool-cases (x.id == z.id)) [
    | inl e ↦
        let same : x.id ≡ z.id = (eq_iff x.id z.id).0 e in
        rw (same, c.lt_irrefl z.id, h) (ground (arith, left_behind_le a z.id xs h))
    | inr e ↦ ground (arith, left_behind_lt a z xs h, c.lt_trans a z.id x.id h)
  ]

  All-after :
      (cursor : String) (rows xs : List LiveActivityToken)
      → All (IsIn xs) rows
      → All
          (λ (x : LiveActivityToken). (c.lt cursor x.id ≡ true) × IsIn xs x)
          (after key c cursor rows)
  All-after cursor [] xs h = tt
  All-after cursor (x ∷ rows) xs h = elim (Bool-cases (c.lt cursor x.id)) [
    | inl e ↦ rw e ((e, h.0), All-after cursor rows xs h.1)
    | inr e ↦ rw e (All-after cursor rows xs h.1)
  ]

  All-last :
      (P : LiveActivityToken → Type 0) (size : ℕ) (rows : List LiveActivityToken)
      (z : LiveActivityToken)
      → All P rows
      → last_of_batch size rows ≡ some z
      → P z
  All-last P zero rows z h e = cc
  All-last P (suc n) rows z h e = All-get_elem? P rows n z h e

  full_cursor :
      (P : LiveActivityToken → Type 0) (size : ℕ) (rows : List LiveActivityToken)
      (batch : TokenBatch LiveActivityToken)
      → All P rows
      → to_batch key size rows ≡ ok batch
      → batch.has_more ≡ true
      → (z : LiveActivityToken) × P z × (batch.next_cursor ≡ z.id)
  unfolding to_batch
  full_cursor P size rows batch h e m = elim (Option-cases (last_of_batch size rows)) [
    | inl n ↦ absurd (ground (arith, n))
    | inr (z, found) ↦ (z, All-last P size rows z h found, ground (arith, found))
  ]

  -- The cursor after a batch that is not the last: fewer tokens are left behind it.
  pub batch_forward :
      (s : FanoutScope) (now size : ℕ) (cursor : String) (d : Db)
      (batch : TokenBatch LiveActivityToken)
      → to_batch key size (page key c cursor size (scope_tokens s now d)) ≡ ok batch
      → batch.has_more ≡ true
      → left_behind batch.next_cursor d.la_tokens < left_behind cursor d.la_tokens
  unfolding page
  batch_forward s now size cursor d batch e m =
      let P = λ (x : LiveActivityToken). (c.lt cursor x.id ≡ true) × IsIn d.la_tokens x in
      let (z, p, same) =
        full_cursor P size _ batch
          (All-take P (suc size) _ (
            All-order_by P key c _ (
              All-after cursor (scope_tokens s now d) d.la_tokens
                (All-scope_tokens (IsIn d.la_tokens) s now d (All-IsIn d.la_tokens)))))
          e m in
      rw same (left_behind_lt cursor z d.la_tokens p.0 p.1)
