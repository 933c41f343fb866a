-- ===== src/Tests/Plain.antt =====
-- A codec for cursors: each character of a text after a "1", and a "0" at its end; a number as that
-- many "1".
use Prim.Native.Char.{Char, code}
use Prim.Native.String.{String, [], ◌∷◌}
use pushboy.Prelude.{
  ℕ, zero, suc, ◌≡◌, refl, ap, Bool, true, false, Option, none, some, eqb, if◌then◌else◌, ◌==◌,
  eq_iff, Bool-cases, inl, inr, false≢true,
}
use pushboy.Server.Pagination.{Codec, CursorText}

abbrev write_text : String → String → String
write_text [] k = "0" ∷ k
write_text (c ∷ s) k = "1" ∷ c ∷ write_text s k

abbrev put_char : Char → Option (String × String) → Option (String × String)
put_char c none = none
put_char c (some (s, k)) = some (c ∷ s, k)

abbrev read_text : String → Option (String × String)
read_text [] = none
read_text (t ∷ []) = if eqb (code t) 48 then some ([], []) else none
read_text (t ∷ (c ∷ r)) =
    let rest = read_text r in if eqb (code t) 48 then some ([], c ∷ r) else put_char c rest

read_text-write_text : (s k : String) → read_text (write_text s k) ≡ some (s, k)
read_text-write_text [] [] = refl
read_text-write_text [] (c ∷ k) = refl
read_text-write_text (c ∷ s) k = ap (put_char c) (read_text-write_text s k)

abbrev write_number : ℕ → String → String
write_number zero k = "0" ∷ k
write_number (suc n) k = "1" ∷ write_number n k

abbrev put_one : Option (ℕ × String) → Option (ℕ × String)
put_one none = none
put_one (some (n, k)) = some (suc n, k)

abbrev read_number : String → Option (ℕ × String)
read_number [] = none
read_number (t ∷ r) =
    let rest = read_number r in if eqb (code t) 48 then some (0, r) else put_one rest

read_number-write_number : (n : ℕ) (k : String) → read_number (write_number n k) ≡ some (n, k)
read_number-write_number zero k = refl
read_number-write_number (suc n) k = ap put_one (read_number-write_number n k)

abbrev write_cursor : CursorText → String
write_cursor t =
    write_number t.version
      (write_text t.route (write_text t.status (write_text t.sort_value (write_text t.id []))))

module _ {A B : Type 0} where
  abbrev then_read : Option (A × String) → (A → String → Option B) → Option B
  then_read none f = none
  then_read (some (a, k)) f = f a k

abbrev read_cursor : String → Option CursorText
read_cursor raw = then_read (read_number raw) λ version k. then_read (read_text k) λ route k.
    then_read (read_text k) λ status k. then_read (read_text k) λ sort_value k.
      then_read (read_text k) λ id k. some (record {
        version = version;
        route = route;
        status = status;
        sort_value = sort_value;
        id = id;
      })

read_cursor-write_cursor : (t : CursorText) → read_cursor (write_cursor t) ≡ some t
read_cursor-write_cursor t =
    rw
      (
        read_number-write_number t.version (
            write_text t.route
              (write_text t.status (write_text t.sort_value (write_text t.id [])))),
        read_text-write_text t.route
            (write_text t.status (write_text t.sort_value (write_text t.id []))),
        read_text-write_text t.status (write_text t.sort_value (write_text t.id [])),
        read_text-write_text t.sort_value (write_text t.id []),
        read_text-write_text t.id [],
      )
      refl

abbrev read_time : String → Option ℕ
read_time s = then_read (read_number s) (λ n k. some n)

read_time-write_number : (n : ℕ) → read_time (write_number n []) ≡ some n
read_time-write_number n = rw (read_number-write_number n []) refl

abbrev is_empty : String → Bool
is_empty [] = true
is_empty (c ∷ k) = false

not_empty : (c : Char) (k : String) → ((c ∷ k) == "") ≡ false
not_empty c k = elim (Bool-cases ((c ∷ k) == "")) [
  | inl e ↦ absurd (false≢true (ap is_empty ((eq_iff (c ∷ k) "").0 e)))
  | inr e ↦ e
]

write_number-nonempty : (n : ℕ) (k : String) → (write_number n k == "") ≡ false
write_number-nonempty zero k = not_empty _ _
write_number-nonempty (suc n) k = not_empty _ _

pub plain : Codec
plain = record {
  encode = write_cursor;
  decode = read_cursor;
  format_time = λ n. write_number n [];
  parse_time = read_time;
  decode-encode = read_cursor-write_cursor;
  parse-format = read_time-write_number;
  encode-nonempty = λ t. write_number-nonempty t.version _;
  format-nonempty = λ n. write_number-nonempty n [];
}
