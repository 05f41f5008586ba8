-- ===== src/Inventory/RecentLines/Equals.antt =====
-- Reading backwards finds the same last lines as reading the whole file.
use mathlib.Core.Path.{subst}
use native.Mathlib.Numerals.{unary_clauses}
use chaop.Base.{
  ◌≡◌, refl, ◌∙◌, sym, ap, arith, ℕ, zero, suc, ◌+◌, ◌-◌, ◌≤◌, ◌<◌, min, ltb, leb, ◌==◌, true,
  false, ◌&&◌, List, [], ◌∷◌, ◌++◌, length, take, drop, ◌⊎◌, inl, inr, Bool-cases,
}
use chaop.Inventory.RecentLines.{
  chunk_len, at_line_feed, newlines, add_byte, lines, read_back, keep_last, recent_lines,
}

newlines-append : (xs ys : List ℕ) → newlines (xs ++ ys) ≡ newlines xs + newlines ys
unfolding newlines
newlines-append [] ys = omega arith
newlines-append (x ∷ xs) ys = ground (arith, newlines-append xs ys)

length-add_byte : (b : ℕ) (ls : List (List ℕ)) → length ls ≤ length (add_byte b ls)
length-add_byte b [] = omega arith
length-add_byte b (l ∷ ls) = omega arith

newlines-length : (bs : List ℕ) → newlines bs ≤ length (lines bs)
unfolding newlines lines
newlines-length [] = omega arith
newlines-length (b ∷ bs) = ground (arith, newlines-length bs, length-add_byte b (lines bs))

none_to_drop : (n m : ℕ) → ltb n m ≡ false → m - n ≡ 0
none_to_drop n m h = ground (arith, h)

keep_last-drop : (n : ℕ) (ls : List (List ℕ)) → keep_last n ls ≡ drop (length ls - n) ls
keep_last-drop n ls = elim (Bool-cases (ltb n (length ls))) [
  | inl more ↦ rw (more)
  | inr fits ↦ rw (fits) (ap (λ k. drop k ls) (sym (none_to_drop n (length ls) fits)))
]

one_more : (n m : ℕ) → n ≤ m → suc m - n ≡ suc (m - n)
one_more n m h = omega (arith, h)

keep_last-cons :
    (n : ℕ) (l : List ℕ) (ls : List (List ℕ))
    → n ≤ length ls
    → keep_last n (l ∷ ls) ≡ keep_last n ls
keep_last-cons n l ls h =
    keep_last-drop n (l ∷ ls)
    ∙ ap (λ k. drop k (l ∷ ls)) (one_more n (length ls) h)
    ∙ sym (keep_last-drop n ls)

keep_last-add_byte :
    (n b : ℕ) (ls : List (List ℕ)) → n < length ls → keep_last n (add_byte b ls) ≡ keep_last n ls
keep_last-add_byte n b [] h = absurd (omega (arith, h))
keep_last-add_byte n b (l ∷ ls) h =
    keep_last-cons n (b ∷ l) ls (omega (arith, h)) ∙ sym (keep_last-cons n l ls (omega (arith, h)))

keep_last-byte :
    (n b : ℕ) (bs : List ℕ)
    → n < length (lines bs)
    → keep_last n (lines (b ∷ bs)) ≡ keep_last n (lines bs)
unfolding lines
keep_last-byte n b bs h = elim (Bool-cases (b == 10)) [
  | inl feeds ↦ rw (feeds) (keep_last-cons n [] (lines bs) (omega (arith, h)))
  | inr goes_on ↦ elim (Bool-cases ((b == 13) && at_line_feed bs)) [
    | inl returns ↦ rw (goes_on, returns)
    | inr stays ↦ rw (goes_on, stays) (keep_last-add_byte n b (lines bs) h)
  ]
]

keep_last-append :
    (n : ℕ) (xs bs : List ℕ)
    → n < newlines bs
    → keep_last n (lines (xs ++ bs)) ≡ keep_last n (lines bs)
keep_last-append n [] bs h = refl
keep_last-append n (x ∷ xs) bs h =
    keep_last-byte n x (xs ++ bs)
      (omega (arith, h, newlines-length (xs ++ bs), newlines-append xs bs))
    ∙ keep_last-append n xs bs h

take-drop {ℓ} : {A : Type ℓ} (n : ℕ) (xs : List A) → take n xs ++ drop n xs ≡ xs
take-drop zero xs = refl
take-drop (suc n) [] = refl
take-drop (suc n) (x ∷ xs) = ap (λ zs. x ∷ zs) (take-drop n xs)

drop-drop {ℓ} : {A : Type ℓ} (m n : ℕ) (xs : List A) → drop n (drop m xs) ≡ drop (m + n) xs
drop-drop zero n xs = ap (λ k. drop k xs) (omega arith)
drop-drop (suc m) zero [] = simp unary_clauses refl
drop-drop (suc m) (suc n) [] = simp unary_clauses refl
drop-drop (suc m) n (x ∷ xs) =
    let step : suc (m + n) ≡ suc m + n = omega arith in
    drop-drop m n xs ∙ ap (λ k. drop k (x ∷ xs)) step

-- What a reading backwards came to: the bytes at the end of the file, behind more line feeds than
-- asked for, or all of them.
record Tail (limit : ℕ) (file bytes : List ℕ) : Type 0 where
  front : List ℕ
  splits : front ++ bytes ≡ file
  enough : (limit < newlines bytes) ⊎ (front ≡ [])

stopped-Tail :
    (limit : ℕ) (file : List ℕ) (position : ℕ)
    → (ltb 0 position && leb (newlines (drop position file)) limit) ≡ false
    → Tail limit file (drop position file)
stopped-Tail limit file zero h = record { front = []; splits = refl; enough = inr refl }
stopped-Tail limit file (suc p) h = record {
  front = take (suc p) file;
  splits = take-drop (suc p) file;
  enough = inl (ground (arith, h));
}

chunk-splits :
    (position read_len : ℕ) (file : List ℕ)
    → read_len ≤ position
    → take read_len (drop (position - read_len) file) ++ drop position file
      ≡ drop (position - read_len) file
chunk-splits position read_len file h =
    let start = position - read_len in
    ap (λ zs. take read_len (drop start file) ++ zs)
      (sym (drop-drop start read_len file ∙ ap (λ k. drop k file) (omega (arith, h))))
    ∙ take-drop read_len (drop start file)

reads_some :
    (fuel position limit count : ℕ)
    → position ≤ suc fuel
    → (ltb 0 position && leb count limit) ≡ true
    → position - min position chunk_len ≤ fuel
reads_some fuel position limit count h k = ground (arith, h, k)

read_back-Tail :
    (fuel limit : ℕ) (file : List ℕ) (position : ℕ)
    → position ≤ fuel
    → Tail limit file
        (read_back fuel limit file position (drop position file) (newlines (drop position file)))
unfolding read_back
read_back-Tail zero limit file zero h = record { front = []; splits = refl; enough = inr refl }
read_back-Tail zero limit file (suc p) h = absurd (omega (arith, h))
read_back-Tail (suc fuel) limit file position h =
    let bytes = drop position file in
    let read_len = min position chunk_len in
    let start = position - read_len in
    let chunk = take read_len (drop start file) in
    elim (Bool-cases (ltb 0 position && leb (newlines bytes) limit)) [
      | inl goes_on ↦ rw (goes_on) (
          subst
            (λ bs.
              Tail limit file
                (read_back fuel limit file start bs (newlines bytes + newlines chunk)))
            (sym (chunk-splits position read_len file (omega arith)))
            (subst
              (λ count. Tail limit file (read_back fuel limit file start (drop start file) count))
              (ap newlines (sym (chunk-splits position read_len file (omega arith)))
                ∙ newlines-append chunk bytes
                ∙ omega arith)
              (read_back-Tail fuel limit file start
                (reads_some fuel position limit (newlines bytes) h goes_on))))
      | inr stops ↦ rw (stops) (stopped-Tail limit file position stops)
    ]

drop_all {ℓ} : {A : Type ℓ} (xs : List A) → drop (length xs) xs ≡ []
drop_all [] = refl
drop_all (x ∷ xs) = drop_all xs

whole-Tail :
    (limit : ℕ) (file : List ℕ)
    → Tail limit file (read_back (length file) limit file (length file) [] 0)
unfolding newlines
whole-Tail limit file =
    subst
      (λ bytes.
        Tail limit file (read_back (length file) limit file (length file) bytes (newlines bytes)))
      (drop_all file) (read_back-Tail (length file) limit file (length file) (omega arith))

Tail-lines :
    (limit : ℕ) (file bytes : List ℕ)
    → Tail limit file bytes
    → keep_last limit (lines bytes) ≡ keep_last limit (lines file)
Tail-lines limit file bytes t =
    elim t.enough [
      | inl many ↦ sym (keep_last-append limit t.front bytes many)
      | inr all ↦ ap (λ xs. keep_last limit (lines (xs ++ bytes))) (sym all)
    ]
    ∙ ap (λ xs. keep_last limit (lines xs)) t.splits

-- Reading a file backwards in chunks, until it has more line feeds than lines are asked for, finds the same
-- last lines as splitting the whole file would, whatever
-- its bytes.
pub recent_lines-exact :
    (limit : ℕ) (file : List ℕ) → recent_lines limit file ≡ keep_last limit (lines file)
unfolding recent_lines
recent_lines-exact limit file = Tail-lines limit file _ (whole-Tail limit file)
