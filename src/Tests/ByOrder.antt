-- ===== src/Tests/ByOrder.antt =====
-- A collation: texts by the numbers of their characters, as the database's "C".
use Prim.Native.Char.{code}
use Prim.Native.String.{String, [], ◌∷◌}
use text.Mathlib.TextEquality.{Char-path}
use pushboy.Prelude.{◌≡◌, ◌≢◌, refl, Bool, true, false, ltb, if◌then◌else◌, arith}
use pushboy.Storage.Paging.{Collation}

abbrev text_lt : String → String → Bool
text_lt [] [] = false
text_lt [] (d ∷ t) = true
text_lt (c ∷ s) [] = false
text_lt (c ∷ s) (d ∷ t) =
    let rest = text_lt s t in
    if ltb (code c) (code d) then true else if ltb (code d) (code c) then false else rest

pub text_lt_irrefl : (s : String) → text_lt s s ≡ false
text_lt_irrefl [] = refl
text_lt_irrefl (c ∷ s) = ground (arith, text_lt_irrefl s)

pub text_lt_trans : (r s t : String) → text_lt r s ≡ true → text_lt s t ≡ true → text_lt r t ≡ true
text_lt_trans [] [] t h k = cc
text_lt_trans [] (d ∷ s) [] h k = cc
text_lt_trans [] (d ∷ s) (e ∷ t) h k = refl
text_lt_trans (c ∷ r) [] t h k = cc
text_lt_trans (c ∷ r) (d ∷ s) [] h k = cc
text_lt_trans (c ∷ r) (d ∷ s) (e ∷ t) h k = ground (arith, text_lt_trans r s t)

pub text_lt_total : (s t : String) → text_lt s t ≡ false → text_lt t s ≡ false → s ≡ t
text_lt_total [] [] h k = refl
text_lt_total [] (d ∷ t) h k = cc
text_lt_total (c ∷ s) [] h k = cc
text_lt_total (c ∷ s) (d ∷ t) h k = ground (arith, text_lt_total s t, Char-path c d)

pub text_lt_empty : (s : String) → s ≢ "" → text_lt "" s ≡ true
text_lt_empty [] h = absurd (h refl)
text_lt_empty (c ∷ s) h = refl

abbrev pub by_order : Collation
by_order = record {
  lt = text_lt;
  lt_irrefl = text_lt_irrefl;
  lt_trans = text_lt_trans;
  lt_total = text_lt_total;
  lt_empty = text_lt_empty;
}
