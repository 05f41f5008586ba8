-- ===== src/Base/Texts.antt =====
-- The order of texts.
use Prim.Native.Nat.{ℕ, Ordering, compare as compare_ℕ}
use Prim.Native.Char.{code}
use Prim.Native.String.{String, compare, then}
use Prim.Native.String.compare.{cons-nil, cons-cons}
use mathlib.Core.Path.{◌≡◌, refl}
use mathlib.Core.Bool.{Bool, true, false}
use native.Mathlib.Omega.{arith}

-- `<` on texts, which is that of their code points.
abbrev pub text_lt : String → String → Bool
text_lt a b = elim (compare a b) [ Ordering.lt ↦ true | _ ↦ false ]

then_asymm :
    (m n : ℕ) (e f : Ordering)
    → (elim e [ Ordering.lt ↦ true | _ ↦ false ] ≡ true
        → elim f [ Ordering.lt ↦ true | _ ↦ false ] ≡ false)
    → elim (then (compare_ℕ m n) e) [ Ordering.lt ↦ true | _ ↦ false ] ≡ true
    → elim (then (compare_ℕ n m) f) [ Ordering.lt ↦ true | _ ↦ false ] ≡ false
then_asymm m n e f ih h = ground arith

pub text_lt_asymm : (a b : String) → text_lt a b ≡ true → text_lt b a ≡ false
text_lt_asymm String.[] String.[] h = refl
text_lt_asymm String.[] (String.◌∷◌ d t) h = rw (text_lt, cons-nil d t)
text_lt_asymm (String.◌∷◌ c s) String.[] h = absurd (cc (cons-nil c s))
text_lt_asymm (String.◌∷◌ c s) (String.◌∷◌ d t) h = ground (
  arith,
  cons-cons c d s t,
  cons-cons d c t s,
  then_asymm (code c) (code d) (compare s t) (compare t s) (text_lt_asymm s t),
)
