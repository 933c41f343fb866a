-- ===== src/Storage/Topics/Keys.antt =====
-- The key of a subscription, `sub:<user>:<topic>`.
use Prim.Native.Char.{Char, code}
use Prim.Native.String
use Prim.Native.String.{[], ◌∷◌}
use mathlib.Core.Path.{ap, ◌∙◌, sym}
use text.Mathlib.TextLemmas.{nil-append, cons-append, append_cancel_left}
use pushboy.Prelude.{String, ◌≡◌, refl, Bool, false, ◌||◌, eqb, arith}
use pushboy.Storage.Directory.{subscription_id}

abbrev pub has_colon : String → Bool
has_colon [] = false
has_colon (c ∷ cs) = eqb (code c) 58 || has_colon cs

abbrev colon_then : String → String → String
colon_then u t = String.◌++◌ u (String.◌++◌ ":" t)

cons-injective : (c d : Char) (s t : String) → (c ∷ s) ≡ (d ∷ t) → (c ≡ d) × (s ≡ t)
cons-injective c d s t e = (cc, cc)

colon_then-nil : (s : String) → colon_then [] s ≡ (":" ∷ s)
colon_then-nil s =
    nil-append (String.◌++◌ ":" s) ∙ cons-append ":" [] s ∙ ap (◌∷◌ ":") (nil-append s)

colon_then-cons : (c : Char) (u s : String) → colon_then (c ∷ u) s ≡ (c ∷ colon_then u s)
colon_then-cons c u s = cons-append c u (String.◌++◌ ":" s)

colon_then-injective :
    (u v s t : String)
    → has_colon u ≡ false
    → has_colon v ≡ false
    → colon_then u s ≡ colon_then v t
    → (u ≡ v) × (s ≡ t)
colon_then-injective [] [] s t h k e =
    (refl, (cons-injective ":" ":" s t (sym (colon_then-nil s) ∙ e ∙ colon_then-nil t)).1)
colon_then-injective [] (c ∷ v) s t h k e =
    let cons = sym (colon_then-nil s) ∙ e ∙ colon_then-cons c v t in
    let same = ap code (cons-injective ":" c s (colon_then v t) cons).0 in absurd (ground arith)
colon_then-injective (c ∷ u) [] s t h k e =
    let cons = sym (colon_then-cons c u s) ∙ e ∙ colon_then-nil t in
    let same = ap code (cons-injective c ":" (colon_then u s) t cons).0 in absurd (ground arith)
colon_then-injective (c ∷ u) (d ∷ v) s t h k e =
    let cons =
      cons-injective c d (colon_then u s) (colon_then v t)
        (sym (colon_then-cons c u s) ∙ e ∙ colon_then-cons d v t) in
    let rest = colon_then-injective u v s t (ground arith) (ground arith) cons.1 in
    ((λ i. cons.0 i ∷ rest.0 i), rest.1)

-- Users whose ids have no colon have keys of their own.
pub subscription_id-injective :
    (u v s t : String)
    → has_colon u ≡ false
    → has_colon v ≡ false
    → subscription_id u s ≡ subscription_id v t
    → (u ≡ v) × (s ≡ t)
unfolding subscription_id
subscription_id-injective u v s t h k e =
    colon_then-injective u v s t h k (append_cancel_left "sub:" _ _ e)
