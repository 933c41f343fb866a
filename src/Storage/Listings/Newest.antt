-- ===== src/Storage/Listings/Newest.antt =====
-- The order of the paged lists, and what is behind a cursor in it.
use pushboy.Prelude.{
  ℕ, zero, suc, String, ◌≡◌, ◌≢◌, refl, subst, Bool, true, false, some, List, [], ◌∷◌, arith,
  length, drop, select, All, Bool-cases, inl, inr, if◌then◌else◌,
}
use pushboy.Storage.Paging.{Collation, get_elem?}
use pushboy.Storage.Listings.{is_before, insert_newest, newest_first}

module _ (c : Collation) where
  is_before_irrefl : (a : ℕ × String) → is_before c a a ≡ false
  unfolding is_before
  is_before_irrefl (t, i) = ground (arith, c.lt_irrefl i)

  is_before_trans :
      (x y z : ℕ × String)
      → is_before c x y ≡ true
      → is_before c y z ≡ true
      → is_before c x z ≡ true
  unfolding is_before
  is_before_trans (t, i) (u, j) (v, k) h l = ground (arith, c.lt_trans i j k)

  is_before_total : (x y : ℕ × String) → is_before c x y ≡ false → is_before c y x ≡ false → x ≡ y
  unfolding is_before
  is_before_total (t, i) (u, j) h l =
      let same : t ≡ u = ground arith in
      let same_id : i ≡ j = c.lt_total i j (ground arith) (ground arith) in λ k. (same k, same_id k)

module _ {A : Type 0} (key : A → ℕ × String) (c : Collation) where
  -- `x` is older than `y`.
  abbrev pub older : A → A → Bool
  older x y = is_before c (key x) (key y)

  abbrev pub behind_row : ℕ × String → List A → List A
  behind_row k rows = select (λ (r : A). is_before c (key r) k) rows

  older_than :
      (x y : A) (k : ℕ × String)
      → older x y ≡ false
      → is_before c (key x) k ≡ true
      → is_before c (key y) k ≡ false
      → ⊥
  older_than x y k h l m = elim (Bool-cases (older y x)) [
    | inl e ↦ ground (arith, is_before_trans c (key y) (key x) k e l)
    | inr e ↦
        let same = is_before_total c (key x) (key y) h e in
        ground (arith, subst (λ z. is_before c z k ≡ true) same l)
  ]

  behind-insert_newest :
      (k : ℕ × String) (x : A) (ys : List A)
      → behind_row k (insert_newest key c x ys) ≡ (
          if is_before c (key x) k
          then insert_newest key c x (behind_row k ys)
          else behind_row k ys)
  unfolding insert_newest
  behind-insert_newest k x [] = refl
  behind-insert_newest k x (y ∷ ys) = ground (arith, behind-insert_newest k x ys, older_than x y k)

  -- Filtering the rows and sorting them commute.
  pub behind-newest_first :
      (k : ℕ × String) (rows : List A)
      → newest_first key c (behind_row k rows) ≡ behind_row k (newest_first key c rows)
  unfolding newest_first
  behind-newest_first k [] = refl
  behind-newest_first k (x ∷ xs) =
      ground (arith, behind-newest_first k xs, behind-insert_newest k x (newest_first key c xs))

  abbrev pub IsNew : A → List A → Type 0
  IsNew x ys = All (λ (y : A). key x ≢ key y) ys

  -- No two rows have one key.
  abbrev pub IsDistinct : List A → Type 0
  IsDistinct [] = Unit
  IsDistinct (x ∷ xs) = IsNew x xs × IsDistinct xs

  abbrev pub Newer : A → List A → Type 0
  Newer x ys = All (λ (y : A). older y x ≡ true) ys

  -- Each row is newer than those after it.
  abbrev pub IsNewestFirst : List A → Type 0
  IsNewestFirst [] = Unit
  IsNewestFirst (x ∷ xs) = Newer x xs × IsNewestFirst xs

  Newer-trans : (x y : A) (zs : List A) → older y x ≡ true → Newer y zs → Newer x zs
  Newer-trans x y [] h b = tt
  Newer-trans x y (z ∷ zs) h b =
      (is_before_trans c (key z) (key y) (key x) b.0 h, Newer-trans x y zs h b.1)

  All-insert_newest :
      (P : A → Type 0) (x : A) (ys : List A) → P x → All P ys → All P (insert_newest key c x ys)
  unfolding insert_newest
  All-insert_newest P x [] h k = (h, tt)
  All-insert_newest P x (y ∷ ys) h k = elim (Bool-cases (older x y)) [
    | inl e ↦ rw e (k.0, All-insert_newest P x ys h k.1)
    | inr e ↦ rw e (h, k)
  ]

  pub All-newest_first :
      (P : A → Type 0) (rows : List A) → All P rows → All P (newest_first key c rows)
  unfolding newest_first
  All-newest_first P [] k = tt
  All-newest_first P (x ∷ xs) k =
      All-insert_newest P x (newest_first key c xs) k.0 (All-newest_first P xs k.1)

  IsNewestFirst-insert_newest :
      (x : A) (ys : List A)
      → IsNew x ys
      → IsNewestFirst ys
      → IsNewestFirst (insert_newest key c x ys)
  unfolding insert_newest
  IsNewestFirst-insert_newest x [] n h = (tt, tt)
  IsNewestFirst-insert_newest x (y ∷ ys) n h = elim (Bool-cases (older x y)) [
    | inl e ↦ rw e (
      All-insert_newest (λ z. older z y ≡ true) x ys e h.0,
      IsNewestFirst-insert_newest x ys n.1 h.1,
    )
    | inr e ↦ rw e ((flip e, Newer-trans x y ys (flip e) h.0), h)
  ]
    where
      flip : older x y ≡ false → older y x ≡ true
      flip e = elim (Bool-cases (older y x)) [
        | inl l ↦ l
        | inr m ↦ absurd (n.0 (is_before_total c _ _ e m))
      ]

  -- ORDER BY puts rows with distinct keys strictly by time and id, the newest first.
  pub newest_first_sorted :
      (rows : List A) → IsDistinct rows → IsNewestFirst (newest_first key c rows)
  unfolding newest_first
  newest_first_sorted [] h = tt
  newest_first_sorted (x ∷ xs) h =
      IsNewestFirst-insert_newest x (newest_first key c xs)
        (All-newest_first (λ (y : A). key x ≢ key y) xs h.0) (newest_first_sorted xs h.1)

  Newer-behind : (x : A) (ys : List A) → Newer x ys → behind_row (key x) ys ≡ ys
  Newer-behind x [] b = refl
  Newer-behind x (y ∷ ys) b = ground (arith, Newer-behind x ys b.1)

  Newer-get_elem? :
      (x z : A) (ys : List A) (n : ℕ) → Newer x ys → get_elem? ys n ≡ some z → older z x ≡ true
  Newer-get_elem? x z [] n b e = cc
  Newer-get_elem? x z (y ∷ ys) zero b e = ground arith
  Newer-get_elem? x z (y ∷ ys) (suc n) b e = Newer-get_elem? x z ys n b.1 e

  -- What is behind the n-th row, counted from 0.
  pub behind_elem :
      (n : ℕ) (rows : List A) (z : A)
      → IsNewestFirst rows
      → get_elem? rows n ≡ some z
      → behind_row (key z) rows ≡ drop (suc n) rows
  behind_elem n [] z h e = refl
  behind_elem zero (x ∷ xs) z h e =
      let same : x ≡ z = ground arith in
      subst (λ (w : A). behind_row (key w) (x ∷ xs) ≡ xs) same
        (rw (is_before_irrefl c) (Newer-behind x xs h.0))
  behind_elem (suc n) (x ∷ xs) z h e =
      rw (asym z x (Newer-get_elem? x z xs n h.0 e)) (behind_elem n xs z h.1 e)
    where
      asym : (x y : A) → older x y ≡ true → older y x ≡ false
      asym x y l = elim (Bool-cases (older y x)) [
        | inl m ↦
            ground
              (arith, is_before_trans c (key x) (key y) (key x) l m, is_before_irrefl c (key x))
        | inr m ↦ m
      ]

  length-insert_newest : (x : A) (ys : List A) → length (insert_newest key c x ys) ≡ suc (length ys)
  unfolding insert_newest
  length-insert_newest x [] = refl
  length-insert_newest x (y ∷ ys) = ground (arith, length-insert_newest x ys)

  pub length-newest_first : (rows : List A) → length (newest_first key c rows) ≡ length rows
  unfolding newest_first
  length-newest_first [] = refl
  length-newest_first (x ∷ xs) =
      omega (arith, length-insert_newest x (newest_first key c xs), length-newest_first xs)
