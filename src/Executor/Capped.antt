-- ===== src/Executor/Capped.antt =====
-- The cap on the output of a command (crates/agent/src/executor.rs).
use native.Mathlib.Numerals.{unary_clauses}
use chaop.Base.{
  ℕ, zero, suc, ◌-◌, min, ltb, ◌==◌, ◌≤◌, ◌≡◌, refl, sym, arith, ap, ◌∙◌, true, false, ◌||◌, String,
  List, [], ◌∷◌, ◌++◌, length, take, length-append, length-take, Result, ok, if◌then◌else◌,
}
use chaop.Executor.{CappedOutput, read_capped, read_capped_loop}

take-append : (n : ℕ) (xs ys : List ℕ) → take n (xs ++ ys) ≡ take n xs ++ take (n - length xs) ys
take-append zero xs ys = ground arith
take-append (suc n) [] ys = simp unary_clauses
take-append (suc n) (x ∷ xs) ys = simp unary_clauses (ap (λ zs. x ∷ zs) (take-append n xs ys))

take-min : (n : ℕ) (xs : List ℕ) → take (min n (length xs)) xs ≡ take n xs
take-min zero xs = ground arith
take-min (suc n) [] = ground arith
take-min (suc n) (x ∷ xs) = simp unary_clauses (ap (λ zs. x ∷ zs) (take-min n xs))

take-all : (n : ℕ) (xs : List ℕ) → length xs ≤ n → take n xs ≡ xs
take-all zero [] h = refl
take-all zero (x ∷ xs) h = absurd (omega (arith, h))
take-all (suc n) [] h = refl
take-all (suc n) (x ∷ xs) h = ground (arith, take-all n xs (omega (arith, h)))

append-nil : (xs : List ℕ) → xs ++ [] ≡ xs
append-nil [] = refl
append-nil (x ∷ xs) = ground (arith, append-nil xs)

append_assoc : (xs ys zs : List ℕ) → (xs ++ ys) ++ zs ≡ xs ++ (ys ++ zs)
append_assoc [] ys zs = refl
append_assoc (x ∷ xs) ys zs = ground (arith, append_assoc xs ys zs)

-- The reads of a pipe that is read to its end without an error, each of a byte at least; and all
-- their bytes.
unfoldable pub reads_of : List (ℕ × List ℕ) → List (Result (List ℕ) String)
reads_of [] = []
reads_of ((b, bs) ∷ chunks) = ok (b ∷ bs) ∷ reads_of chunks

unfoldable pub all_bytes : List (ℕ × List ℕ) → List ℕ
all_bytes [] = []
all_bytes ((b, bs) ∷ chunks) = (b ∷ bs) ++ all_bytes chunks

-- What the output is to be when these bytes have been read.
abbrev capped : ℕ → List ℕ → CappedOutput
capped max_bytes seen = record {
  bytes = take max_bytes seen;
  truncated = ltb max_bytes (length seen);
}

cut-exact :
    (max_bytes b : ℕ) (seen bs : List ℕ)
    → let remaining = max_bytes - length (take max_bytes seen) in
      let taken = min remaining (length (b ∷ bs)) in
      (if remaining == 0 then record { bytes = take max_bytes seen; truncated = true } else record {
        bytes = take max_bytes seen ++ take taken (b ∷ bs);
        truncated = ltb max_bytes (length seen) || ltb taken (length (b ∷ bs));
      })
      ≡ capped max_bytes (seen ++ (b ∷ bs))
cut-exact max_bytes b seen bs = ground (
  arith,
  take-append max_bytes seen (b ∷ bs),
  take-min (max_bytes - length (take max_bytes seen)) (b ∷ bs),
  take-all max_bytes seen,
  length-take max_bytes seen,
  length-append seen (b ∷ bs),
  append-nil (take max_bytes seen),
)

loop-exact :
    (max_bytes : ℕ) (chunks : List (ℕ × List ℕ)) (seen : List ℕ)
    → read_capped_loop max_bytes (reads_of chunks) (capped max_bytes seen)
      ≡ ok (capped max_bytes (seen ++ all_bytes chunks))
unfolding read_capped_loop reads_of all_bytes
loop-exact max_bytes [] seen = ap (λ xs. ok (capped max_bytes xs)) (sym (append-nil seen))
loop-exact max_bytes ((b, bs) ∷ chunks) seen =
    ap (read_capped_loop max_bytes (reads_of chunks)) (cut-exact max_bytes b seen bs)
    ∙ loop-exact max_bytes chunks (seen ++ (b ∷ bs))
    ∙ ap (λ xs. ok (capped max_bytes xs)) (append_assoc seen (b ∷ bs) (all_bytes chunks))

capped-nil : (n : ℕ) → capped n [] ≡ record { bytes = []; truncated = false }
capped-nil zero = ground arith
capped-nil (suc n) = ground arith

-- A pipe that is read to its end without an error is kept up to the cap exactly: the bytes are the
-- first ones of all that came, as many as the cap allows, and the output is marked as truncated
-- exactly when more came.
pub capped_exact :
    (max_bytes : ℕ) (chunks : List (ℕ × List ℕ))
    → read_capped max_bytes (reads_of chunks)
      ≡ ok (record {
        bytes = take max_bytes (all_bytes chunks);
        truncated = ltb max_bytes (length (all_bytes chunks));
      })
unfolding read_capped
capped_exact max_bytes chunks =
    ap (read_capped_loop max_bytes (reads_of chunks)) (sym (capped-nil max_bytes))
    ∙ loop-exact max_bytes chunks []
