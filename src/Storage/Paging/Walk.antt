-- ===== src/Storage/Paging/Walk.antt =====
-- Going from batch to batch by the cursor gives every row once, in order.
use pushboy.Prelude.{
  ℕ, zero, suc, ◌<◌, String, ◌≡◌, ◌≢◌, refl, subst, true, false, some, List, [], ◌∷◌, arith, length,
  drop, All, Bool-cases, inl, inr, if◌then◌else◌,
}
use pushboy.Storage.Paging.{Collation, get_elem?, insert_row, order_by, after}

module _ {A : Type 0} where
  pub get_elem?-some :
      (n : ℕ) (rows : List A) → n < length rows → (z : A) × (get_elem? rows n ≡ some z)
  get_elem?-some n [] h = absurd (omega arith)
  get_elem?-some zero (x ∷ xs) h = (x, refl)
  get_elem?-some (suc n) (x ∷ xs) h = get_elem?-some n xs (omega arith)

module _ {A : Type 0} (key : A → String) (c : Collation) where
  pub lt_asym : (a b : String) → c.lt a b ≡ true → c.lt b a ≡ false
  lt_asym a b h = elim (Bool-cases (c.lt b a)) [
    | inl e ↦ ground (arith, c.lt_trans a b a h e, c.lt_irrefl a)
    | inr e ↦ e
  ]

  -- `a ≤ b` and `d < a` give `d < b`.
  lt_le_trans : (a b d : String) → c.lt b a ≡ false → c.lt d a ≡ true → c.lt d b ≡ true
  lt_le_trans a b d h l = elim (Bool-cases (c.lt a b)) [
    | inl e ↦ c.lt_trans d a b l e
    | inr e ↦ subst (λ (x : String). c.lt d x ≡ true) (c.lt_total a b e h) l
  ]

  after-insert_row :
      (cursor : String) (x : A) (ys : List A)
      → after key c cursor (insert_row key c x ys) ≡ (
          if c.lt cursor (key x)
          then insert_row key c x (after key c cursor ys)
          else after key c cursor ys)
  unfolding insert_row
  after-insert_row cursor x [] = refl
  after-insert_row cursor x (y ∷ ys) =
      ground (arith, after-insert_row cursor x ys, lt_le_trans (key x) (key y) cursor)

  -- Filtering the rows and sorting them commute.
  pub after-order_by :
      (cursor : String) (rows : List A)
      → order_by key c (after key c cursor rows) ≡ after key c cursor (order_by key c rows)
  unfolding order_by
  after-order_by cursor [] = refl
  after-order_by cursor (x ∷ xs) =
      ground (arith, after-order_by cursor xs, after-insert_row cursor x (order_by key c xs))

  -- No two rows have one key, and no key is empty.
  abbrev pub IsKeyed : List A → Type 0
  IsKeyed [] = Unit
  IsKeyed (x ∷ xs) = (key x ≢ "") × All (λ (y : A). key x ≢ key y) xs × IsKeyed xs

  abbrev pub Below : A → List A → Type 0
  Below x ys = All (λ (y : A). c.lt (key x) (key y) ≡ true) ys

  abbrev pub IsOrdered : List A → Type 0
  IsOrdered [] = Unit
  IsOrdered (x ∷ xs) = Below x xs × IsOrdered xs

  Below-trans : (x y : A) (zs : List A) → c.lt (key x) (key y) ≡ true → Below y zs → Below x zs
  Below-trans x y [] h b = tt
  Below-trans x y (z ∷ zs) h b = (c.lt_trans _ _ _ h b.0, Below-trans x y zs h b.1)

  Below-insert_row :
      (x y : A) (zs : List A)
      → c.lt (key x) (key y) ≡ true
      → Below x zs
      → Below x (insert_row key c y zs)
  unfolding insert_row
  Below-insert_row x y [] h b = (h, tt)
  Below-insert_row x y (z ∷ zs) h b = elim (Bool-cases (c.lt (key z) (key y))) [
    | inl e ↦ rw e (b.0, Below-insert_row x y zs h b.1)
    | inr e ↦ rw e (h, b)
  ]

  -- A key that differs from all those of a list.
  abbrev IsNew : A → List A → Type 0
  IsNew x ys = All (λ (y : A). key x ≢ key y) ys

  IsNew-insert_row :
      (x y : A) (zs : List A) → key x ≢ key y → IsNew x zs → IsNew x (insert_row key c y zs)
  unfolding insert_row
  IsNew-insert_row x y [] h b = (h, tt)
  IsNew-insert_row x y (z ∷ zs) h b = elim (Bool-cases (c.lt (key z) (key y))) [
    | inl e ↦ rw e (b.0, IsNew-insert_row x y zs h b.1)
    | inr e ↦ rw e (h, b)
  ]

  IsNew-order_by : (x : A) (ys : List A) → IsNew x ys → IsNew x (order_by key c ys)
  unfolding order_by
  IsNew-order_by x [] h = tt
  IsNew-order_by x (y ∷ ys) h =
      IsNew-insert_row x y (order_by key c ys) h.0 (IsNew-order_by x ys h.1)

  IsOrdered-insert_row :
      (x : A) (ys : List A) → IsNew x ys → IsOrdered ys → IsOrdered (insert_row key c x ys)
  unfolding insert_row
  IsOrdered-insert_row x [] n h = (tt, tt)
  IsOrdered-insert_row x (y ∷ ys) n h = elim (Bool-cases (c.lt (key y) (key x))) [
    | inl e ↦ rw e (Below-insert_row y x ys e h.0, IsOrdered-insert_row x ys n.1 h.1)
    | inr e ↦ let l = flip x y n.0 e in rw e ((l, Below-trans x y ys l h.0), h)
  ]
    where
      flip : (x y : A) → key x ≢ key y → c.lt (key y) (key x) ≡ false → c.lt (key x) (key y) ≡ true
      flip x y n e = elim (Bool-cases (c.lt (key x) (key y))) [
        | inl l ↦ l
        | inr m ↦ absurd (n (c.lt_total _ _ m e))
      ]

  -- ORDER BY sorts rows with distinct keys strictly.
  pub IsOrdered-order_by : (rows : List A) → IsKeyed rows → IsOrdered (order_by key c rows)
  unfolding order_by
  IsOrdered-order_by [] h = tt
  IsOrdered-order_by (x ∷ xs) h =
      IsOrdered-insert_row x (order_by key c xs) (IsNew-order_by x xs h.1)
        (IsOrdered-order_by xs h.2)

  -- Nothing is before the cursor in what follows it.
  pub Below-after : (x : A) (ys : List A) → Below x ys → after key c (key x) ys ≡ ys
  Below-after x [] b = refl
  Below-after x (y ∷ ys) b = ground (arith, Below-after x ys b.1)

  get_elem?-Below :
      (x z : A) (ys : List A) (n : ℕ)
      → Below x ys
      → get_elem? ys n ≡ some z
      → c.lt (key x) (key z) ≡ true
  get_elem?-Below x z [] n b e = cc
  get_elem?-Below x z (y ∷ ys) zero b e = ground arith
  get_elem?-Below x z (y ∷ ys) (suc n) b e = get_elem?-Below x z ys n b.1 e

  -- What follows the n-th row, counted from 0.
  pub after_elem :
      (n : ℕ) (rows : List A) (z : A)
      → IsOrdered rows
      → get_elem? rows n ≡ some z
      → after key c (key z) rows ≡ drop (suc n) rows
  after_elem n [] z h e = refl
  after_elem zero (x ∷ xs) z h e =
      let same : x ≡ z = ground arith in
      subst (λ (w : A). after key c (key w) (x ∷ xs) ≡ xs) same
        (rw c.lt_irrefl (Below-after x xs h.0))
  after_elem (suc n) (x ∷ xs) z h e =
      rw (lt_asym _ _ (get_elem?-Below x z xs n h.0 e)) (after_elem n xs z h.1 e)
