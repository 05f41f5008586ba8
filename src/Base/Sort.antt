-- ===== src/Base/Sort.antt =====
-- Lists sorted by a strict test.
use Prim.Native.Nat.{ℕ, zero, suc}
use mathlib.Core.Path.{◌≡◌, refl}
use mathlib.Core.Bool.{Bool, true, false, not, ◌&&◌}
use mathlib.Core.List.{List, [], ◌∷◌}
use native.Mathlib.Omega.{arith}
use chaop.Base.Tests.{if◌then◌else◌}
use chaop.Base.Lists.{length, take}

-- A list whose neighbours are in order: none comes later than the one behind it.
abbrev in_order {ℓ} : {A : Type ℓ} → (A → A → Bool) → A → List A → Bool
in_order before x [] = true
in_order before x (y ∷ ys) = not (before y x)

unfoldable pub is_sorted {ℓ} : {A : Type ℓ} → (A → A → Bool) → List A → Bool
is_sorted before [] = true
is_sorted before (x ∷ xs) = in_order before x xs && is_sorted before xs

-- `sort_by`, which is stable, for a strict test.
unfoldable pub insert_by {ℓ} : {A : Type ℓ} → (A → A → Bool) → A → List A → List A
insert_by before x [] = x ∷ []
insert_by before x (y ∷ ys) =
    let rest = insert_by before x ys in if before y x then y ∷ rest else x ∷ y ∷ ys

unfoldable pub sort_by {ℓ} : {A : Type ℓ} → (A → A → Bool) → List A → List A
unfolding insert_by
sort_by before [] = []
sort_by before (x ∷ xs) = insert_by before x (sort_by before xs)

module _ {ℓ} {A : Type ℓ} (before : A → A → Bool)
    (asymm : (a b : A) → before a b ≡ true → before b a ≡ false) where
  insert_by_head :
      (z x : A) (ys : List A)
      → before x z ≡ false
      → in_order before z ys ≡ true
      → in_order before z (insert_by before x ys) ≡ true
  unfolding insert_by
  insert_by_head z x [] h k = ground arith
  insert_by_head z x (y ∷ ys) h k = ground arith

  insert_by-is_sorted :
      (x : A) (ys : List A)
      → is_sorted before ys ≡ true
      → is_sorted before (insert_by before x ys) ≡ true
  unfolding is_sorted insert_by
  insert_by-is_sorted x [] h = refl
  insert_by-is_sorted x (y ∷ ys) h =
      ground (arith, insert_by-is_sorted x ys, insert_by_head y x ys, asymm y x)

  pub sort_by-is_sorted : (xs : List A) → is_sorted before (sort_by before xs) ≡ true
  unfolding is_sorted sort_by
  sort_by-is_sorted [] = refl
  sort_by-is_sorted (x ∷ xs) = insert_by-is_sorted x (sort_by before xs) (sort_by-is_sorted xs)

length-insert_by {ℓ} :
    {A : Type ℓ} (before : A → A → Bool) (x : A) (ys : List A)
    → length (insert_by before x ys) ≡ suc (length ys)
unfolding insert_by
length-insert_by before x [] = refl
length-insert_by before x (y ∷ ys) = ground (arith, length-insert_by before x ys)

pub length-sort_by {ℓ} :
    {A : Type ℓ} (before : A → A → Bool) (xs : List A) → length (sort_by before xs) ≡ length xs
unfolding sort_by
length-sort_by before [] = refl
length-sort_by before (x ∷ xs) =
    omega (arith, length-insert_by before x (sort_by before xs), length-sort_by before xs)

in_order-take {ℓ} :
    {A : Type ℓ} (before : A → A → Bool) (n : ℕ) (x : A) (xs : List A)
    → in_order before x xs ≡ true
    → in_order before x (take n xs) ≡ true
in_order-take before zero x xs h = refl
in_order-take before (suc n) x [] h = refl
in_order-take before (suc n) x (y ∷ ys) h = h

pub is_sorted-take {ℓ} :
    {A : Type ℓ} (before : A → A → Bool) (n : ℕ) (xs : List A)
    → is_sorted before xs ≡ true
    → is_sorted before (take n xs) ≡ true
unfolding is_sorted
is_sorted-take before zero xs h = refl
is_sorted-take before (suc n) [] h = refl
is_sorted-take before (suc n) (x ∷ xs) h =
    ground (arith, is_sorted-take before n xs, in_order-take before n x xs)
