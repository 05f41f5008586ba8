-- ===== src/Json/Codec.antt =====
-- A printer and a reader of JSON values that invert one another, for the examples: what the connector
-- relies on of the `serde_json` crate can hold.
use Prim.Native.Char.{Char}
use chaop.Base.{
  ℕ, zero, suc, ◌≡◌, refl, ◌∙◌, String, str_eq, Bool, true, false, Option, none, some, List, [],
  ◌∷◌, if◌then◌else◌,
}
use chaop.Json.{
  Value, null, bool, number, other_number, string, array, object, Items, nil, cons, Fields, end,
  field, Serde, RoundTrips,
}

abbrev put : Char → String → String
put c r = String.◌∷◌ c r

-- A text is written from its end: each letter names what a reader does to its stack.
unfoldable pub write_text : String → String → String
write_text String.[] r = put "q" r
write_text (String.◌∷◌ c s) r = write_text s (put "c" (put c r))

unfoldable pub write_number : ℕ → String → String
write_number zero r = put "z" r
write_number (suc n) r = write_number n (put "s" r)

unfoldable mutual
  pub write : Value → String → String
  write null r = put "n" r
  write (bool true) r = put "t" r
  write (bool false) r = put "f" r
  write (number n) r = write_number n (put "#" r)
  write (other_number s) r = write_text s (put "o" r)
  write (string s) r = write_text s (put "i" r)
  write (array xs) r = write_items xs (put "a" r)
  write (object fs) r = write_fields fs (put "e" r)

  pub write_items : Items → String → String
  write_items nil r = put "l" r
  write_items (cons v xs) r = write_items xs (write v (put "," r))

  pub write_fields : Fields → String → String
  write_fields end r = put "m" r
  write_fields (field k v fs) r = write_fields fs (write v (write_text k (put ":" r)))

pub data Piece : Type 0 where
  a_text : String → Piece
  a_number : ℕ → Piece
  a_value : Value → Piece
  some_items : Items → Piece
  some_fields : Fields → Piece

abbrev is : Char → String → Bool
is c s = str_eq (put c "") s

-- What the letters that take pieces off the stack do; a stack that a letter does not fit stays.
abbrev close_number : List Piece → List Piece
close_number (a_number n ∷ st) = a_value (number n) ∷ st
close_number st = st

abbrev count_up : List Piece → List Piece
count_up (a_number n ∷ st) = a_number (suc n) ∷ st
count_up st = st

abbrev close_text : (String → Value) → List Piece → List Piece
close_text f (a_text s ∷ st) = a_value (f s) ∷ st
close_text f st = st

abbrev close_items : List Piece → List Piece
close_items (some_items xs ∷ st) = a_value (array xs) ∷ st
close_items st = st

abbrev close_fields : List Piece → List Piece
close_fields (some_fields fs ∷ st) = a_value (object fs) ∷ st
close_fields st = st

abbrev add_item : List Piece → List Piece
add_item (a_value v ∷ some_items xs ∷ st) = some_items (cons v xs) ∷ st
add_item st = st

abbrev add_field : List Piece → List Piece
add_field (a_text k ∷ a_value v ∷ some_fields fs ∷ st) = some_fields (field k v fs) ∷ st
add_field st = st

unfoldable pub apply : Char → List Piece → List Piece
apply c st =
    if is c "q"
    then a_text "" ∷ st
    else if is c "z"
    then a_number 0 ∷ st
    else if is c "n"
    then a_value null ∷ st
    else if is c "t"
    then a_value (bool true) ∷ st
    else if is c "f"
    then a_value (bool false) ∷ st
    else if is c "l"
    then some_items nil ∷ st
    else if is c "m"
    then some_fields end ∷ st
    else if is c "s"
    then count_up st
    else if is c "#"
    then close_number st
    else if is c "o"
    then close_text other_number st
    else if is c "i"
    then close_text string st
    else if is c "a"
    then close_items st
    else if is c "e"
    then close_fields st
    else if is c ","
    then add_item st
    else if is c ":"
    then add_field st
    else st

abbrev quote : Char → List Piece → List Piece
quote c (a_text s ∷ st) = a_text (put c s) ∷ st
quote c st = st

abbrev finish : List Piece → Option Value
finish (a_value v ∷ []) = some v
finish st = none

-- The reading, where the flag tells that the next letter is one of a text.
unfoldable pub read : Bool → String → List Piece → Option Value
unfolding apply
read quoted String.[] st = finish st
read true (String.◌∷◌ c s) st = read false s (quote c st)
read false (String.◌∷◌ c s) st = if is c "c" then read true s st else read false s (apply c st)

read-write_text :
    (s r : String) (st : List Piece) → read false (write_text s r) st ≡ read false r (a_text s ∷ st)
unfolding read write_text apply
read-write_text String.[] r st = refl
read-write_text (String.◌∷◌ c s) r st = read-write_text s (put "c" (put c r)) st

read-write_number :
    (n : ℕ) (r : String) (st : List Piece)
    → read false (write_number n r) st ≡ read false r (a_number n ∷ st)
unfolding read write_number apply
read-write_number zero r st = refl
read-write_number (suc n) r st = read-write_number n (put "s" r) st

mutual
  unfolding read write apply

  read-write :
      (v : Value) (r : String) (st : List Piece)
      → read false (write v r) st ≡ read false r (a_value v ∷ st)
  read-write null r st = refl
  read-write (bool true) r st = refl
  read-write (bool false) r st = refl
  read-write (number n) r st = read-write_number n (put "#" r) st
  read-write (other_number s) r st = read-write_text s (put "o" r) st
  read-write (string s) r st = read-write_text s (put "i" r) st
  read-write (array xs) r st = read-write_items xs (put "a" r) st
  read-write (object fs) r st = read-write_fields fs (put "e" r) st

  read-write_items :
      (xs : Items) (r : String) (st : List Piece)
      → read false (write_items xs r) st ≡ read false r (some_items xs ∷ st)
  read-write_items nil r st = refl
  read-write_items (cons v xs) r st =
      read-write_items xs (write v (put "," r)) st ∙ read-write v (put "," r) (some_items xs ∷ st)

  read-write_fields :
      (fs : Fields) (r : String) (st : List Piece)
      → read false (write_fields fs r) st ≡ read false r (some_fields fs ∷ st)
  read-write_fields end r st = refl
  read-write_fields (field k v fs) r st =
      read-write_fields fs (write v (write_text k (put ":" r))) st
      ∙ read-write v (write_text k (put ":" r)) (some_fields fs ∷ st)
      ∙ read-write_text k (put ":" r) (a_value v ∷ some_fields fs ∷ st)

unfoldable pub codec : Serde
unfolding read write
codec = record {
  to_string = λ v. write v "";
  from_str = λ s. read false s [];
  repeats_field = λ key s. false;
}

pub codec-RoundTrips : RoundTrips codec
unfolding codec read
codec-RoundTrips v h = (read-write v "" [], λ key. refl)
