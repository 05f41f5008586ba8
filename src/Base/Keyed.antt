-- ===== src/Base/Keyed.antt =====
-- Lists of values that a text names: the names in use, the value of a name, and what sorting and
-- cutting the list do to them.
use Prim.Native.Nat.{ℕ, zero, suc}
use Prim.Native.String.{String}
use mathlib.Core.Path.{◌≡◌, refl, ap, ◌∙◌}
use mathlib.Core.Bool.{Bool, true, false, not, ◌&&◌, ◌||◌}
use mathlib.Core.Option.{Option, none, some}
use mathlib.Core.List.{List, [], ◌∷◌}
use native.Mathlib.Omega.{arith}
use text.Mathlib.Text.{◌==◌ as str_eq}
use text.Mathlib.TextEquality.{eq_iff as str_eq_iff}
use chaop.Base.Tests.{if◌then◌else◌}
use chaop.Base.Lists.{take}
use chaop.Base.Sort.{sort_by, insert_by}

unfoldable pub has_key {ℓ} : {A : Type ℓ} → (A → String) → String → List A → Bool
has_key key id [] = false
has_key key id (x ∷ xs) = str_eq (key x) id || has_key key id xs

unfoldable pub find_key {ℓ} : {A : Type ℓ} → (A → String) → String → List A → Option A
find_key key id [] = none
find_key key id (x ∷ xs) = if str_eq (key x) id then some x else find_key key id xs

unfoldable pub distinct_keys {ℓ} : {A : Type ℓ} → (A → String) → List A → Bool
unfolding has_key
distinct_keys key [] = true
distinct_keys key (x ∷ xs) = not (has_key key (key x) xs) && distinct_keys key xs

module _ {ℓ} {A : Type ℓ} (key : A → String) where
  has_key-insert_by :
      (before : A → A → Bool) (id : String) (x : A) (ys : List A)
      → has_key key id (insert_by before x ys) ≡ (str_eq (key x) id || has_key key id ys)
  unfolding has_key insert_by
  has_key-insert_by before id x [] = refl
  has_key-insert_by before id x (y ∷ ys) = ground (arith, has_key-insert_by before id x ys)

  find_key-insert_by :
      (before : A → A → Bool) (id : String) (x : A) (ys : List A)
      → has_key key (key x) ys ≡ false
      → find_key key id (insert_by before x ys)
        ≡ (if str_eq (key x) id then some x else find_key key id ys)
  unfolding has_key find_key insert_by
  find_key-insert_by before id x [] h = refl
  find_key-insert_by before id x (y ∷ ys) h = ground (
    arith,
    find_key-insert_by before id x ys,
    str_eq_iff (key x) id,
    str_eq_iff (key y) id,
    str_eq_iff (key y) (key x),
  )

  distinct_keys-insert_by :
      (before : A → A → Bool) (x : A) (ys : List A)
      → has_key key (key x) ys ≡ false
      → distinct_keys key ys ≡ true
      → distinct_keys key (insert_by before x ys) ≡ true
  unfolding distinct_keys has_key insert_by
  distinct_keys-insert_by before x [] h k = refl
  distinct_keys-insert_by before x (y ∷ ys) h k = ground (
    arith,
    distinct_keys-insert_by before x ys,
    has_key-insert_by before (key y) x ys,
    str_eq_iff (key x) (key y),
    str_eq_iff (key y) (key x),
  )

  pub has_key-sort_by :
      (before : A → A → Bool) (id : String) (xs : List A)
      → has_key key id (sort_by before xs) ≡ has_key key id xs
  unfolding has_key sort_by
  has_key-sort_by before id [] = refl
  has_key-sort_by before id (x ∷ xs) =
      has_key-insert_by before id x (sort_by before xs)
      ∙ ap (λ b. str_eq (key x) id || b) (has_key-sort_by before id xs)

  pub distinct_keys-sort_by :
      (before : A → A → Bool) (xs : List A)
      → distinct_keys key xs ≡ true
      → distinct_keys key (sort_by before xs) ≡ true
  unfolding distinct_keys sort_by
  distinct_keys-sort_by before [] h = refl
  distinct_keys-sort_by before (x ∷ xs) h = ground (
    arith,
    distinct_keys-insert_by before x (sort_by before xs),
    has_key-sort_by before (key x) xs,
    distinct_keys-sort_by before xs,
  )

  pub find_key-sort_by :
      (before : A → A → Bool) (id : String) (xs : List A)
      → distinct_keys key xs ≡ true
      → find_key key id (sort_by before xs) ≡ find_key key id xs
  unfolding distinct_keys find_key sort_by
  find_key-sort_by before id [] h = refl
  find_key-sort_by before id (x ∷ xs) h = ground (
    arith,
    find_key-insert_by before id x (sort_by before xs),
    has_key-sort_by before (key x) xs,
    find_key-sort_by before id xs,
  )

  has_key-take :
      (n : ℕ) (id : String) (xs : List A)
      → has_key key id xs ≡ false
      → has_key key id (take n xs) ≡ false
  unfolding has_key
  has_key-take zero id xs h = refl
  has_key-take (suc n) id [] h = refl
  has_key-take (suc n) id (x ∷ xs) h = ground (arith, has_key-take n id xs)

  pub distinct_keys-take :
      (n : ℕ) (xs : List A) → distinct_keys key xs ≡ true → distinct_keys key (take n xs) ≡ true
  unfolding distinct_keys
  distinct_keys-take zero xs h = refl
  distinct_keys-take (suc n) [] h = refl
  distinct_keys-take (suc n) (x ∷ xs) h =
      ground (arith, distinct_keys-take n xs, has_key-take n (key x) xs)

  pub find_key-take :
      (n : ℕ) (id : String) (xs : List A) (s : A)
      → find_key key id (take n xs) ≡ some s
      → find_key key id xs ≡ some s
  unfolding find_key
  find_key-take zero id xs s h = absurd (cc (h))
  find_key-take (suc n) id [] s h = absurd (cc (h))
  find_key-take (suc n) id (x ∷ xs) s h = ground (arith, find_key-take n id xs s)
