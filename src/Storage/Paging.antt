-- ===== src/Storage/Paging.antt =====
-- Reading a table in batches by a cursor: `WHERE id > $cursor ORDER BY id LIMIT $size + 1`, and how
-- internal/storage cuts the rows into a batch. The order of texts is the database's collation.
pub mod Walk
pub mod Batches
use pushboy.Prelude.{
  ℕ, zero, suc, ◌+◌, String, ◌≡◌, ◌≢◌, Bool, true, false, Option, none, some, List, [], ◌∷◌, ltb,
  length, take, select, Result, ok, err, panic, if◌then◌else◌,
}

-- What the queries rely on: a strict total order of the texts that are stored, the empty one first.
pub record Collation : Type 0 where
  pub lt : String → String → Bool
  pub lt_irrefl : (a : String) → lt a a ≡ false
  pub lt_trans : (a b c : String) → lt a b ≡ true → lt b c ≡ true → lt a c ≡ true
  pub lt_total : (a b : String) → lt a b ≡ false → lt b a ≡ false → a ≡ b
  pub lt_empty : (a : String) → a ≢ "" → lt "" a ≡ true

pub record TokenBatch (A : Type 0) : Type 0 where
  pub tokens : List A
  pub next_cursor : String
  pub has_more : Bool

module _ {A : Type 0} where
  abbrev pub get_elem? : List A → ℕ → Option A
  get_elem? [] i = none
  get_elem? (x ∷ xs) zero = some x
  get_elem? (x ∷ xs) (suc i) = get_elem? xs i

  -- `tokens[batchSize-1]`, which panics for a batch size of 0.
  abbrev pub last_of_batch : ℕ → List A → Option A
  last_of_batch zero rows = none
  last_of_batch (suc n) rows = get_elem? rows n

  module _ (key : A → String) where
    abbrev pub full_batch : ℕ → List A → Option A → Result (TokenBatch A)
    full_batch size rows none = err panic
    full_batch size rows (some last) =
        ok (record { tokens = take size rows; next_cursor = key last; has_more = true })

    unfoldable pub to_batch : ℕ → List A → Result (TokenBatch A)
    to_batch size rows =
        if ltb size (length rows)
        then full_batch size rows (last_of_batch size rows)
        else ok (record { tokens = rows; next_cursor = ""; has_more = false })

    module _ (c : Collation) where
      -- ORDER BY
      unfoldable pub insert_row : A → List A → List A
      insert_row x [] = x ∷ []
      insert_row x (y ∷ ys) =
          let rest = insert_row x ys in if c.lt (key y) (key x) then y ∷ rest else x ∷ y ∷ ys

      unfoldable pub order_by : List A → List A
      unfolding insert_row
      order_by [] = []
      order_by (x ∷ xs) = insert_row x (order_by xs)

      abbrev pub after : String → List A → List A
      after cursor rows = select (λ r. c.lt cursor (key r)) rows

      -- The rows of one query.
      unfoldable pub page : String → ℕ → List A → List A
      unfolding order_by
      page cursor size rows = take (suc size) (order_by (after cursor rows))
