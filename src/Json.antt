-- ===== src/Json.antt =====
-- JSON values as the connector (crates/agent/src/connector.rs) builds and reads them. The `serde_json`
-- crate is a parameter: how it prints a value and reads a text. Its objects are sorted by their keys,
-- as they are without the crate's feature `preserve_order`.
pub mod Codec
use chaop.Base.{
  ◌≡◌, ℕ, ◌-◌, ltb, leb, u64_max, ◌&&◌, text_lt, String, str_eq, Bool, true, false, Option, none,
  some, List, [], ◌∷◌, if◌then◌else◌,
}

mutual
  pub data Value : Type 0 where
    null : Value
    bool : Bool → Value
    number : ℕ → Value
    other_number : String → Value
    string : String → Value
    array : Items → Value
    object : Fields → Value

  pub data Items : Type 0 where
    nil : Items
    cons : Value → Items → Items

  pub data Fields : Type 0 where
    end : Fields
    field : String → Value → Fields → Fields

-- Beside the reading of a value, whether a text has an object with a given key more than once, which a
-- value merges and the reading of a struct refuses for a field of it.
pub record Serde : Type 0 where
  pub to_string : Value → String
  pub from_str : String → Option Value
  pub repeats_field : String → String → Bool

-- The values that the crate prints and reads back as they were: the keys of an object ascend and none
-- comes twice, an integer fits in 64 bits, there is no float, and nothing is nested deeper than the
-- reader goes.
abbrev pub nesting_limit : ℕ
nesting_limit = 127

abbrev pub after_key : Option String → String → Bool
after_key none key = true
after_key (some last) key = text_lt last key

unfoldable mutual
  pub canonical_to : ℕ → Value → Bool
  canonical_to depth null = true
  canonical_to depth (bool b) = true
  canonical_to depth (number n) = leb n u64_max
  canonical_to depth (other_number s) = false
  canonical_to depth (string s) = true
  canonical_to depth (array xs) = ltb 0 depth && canonical_items (depth - 1) xs
  canonical_to depth (object fs) = ltb 0 depth && canonical_fields (depth - 1) none fs

  pub canonical_items : ℕ → Items → Bool
  canonical_items depth nil = true
  canonical_items depth (cons v xs) = canonical_to depth v && canonical_items depth xs

  pub canonical_fields : ℕ → Option String → Fields → Bool
  canonical_fields depth last end = true
  canonical_fields depth last (field k v fs) =
      after_key last k && canonical_to depth v && canonical_fields depth (some k) fs

unfoldable pub is_canonical : Value → Bool
unfolding canonical_to
is_canonical v = canonical_to nesting_limit v

-- What the crate documents of the two: such a value is read back as it was, from a text that repeats
-- no key.
abbrev pub RoundTrips : Serde → Type 0
RoundTrips serde =
    (v : Value)
    → is_canonical v ≡ true
    → (serde.from_str (serde.to_string v) ≡ some v)
      × ((key : String) → serde.repeats_field key (serde.to_string v) ≡ false)

-- `Map::get`, `Map::insert` and `Map::remove`.
unfoldable pub find_field : String → Fields → Option Value
find_field key end = none
find_field key (field k v rest) = if str_eq k key then some v else find_field key rest

unfoldable pub insert_field : String → Value → Fields → Fields
insert_field key value end = field key value end
insert_field key value (field k v rest) =
    let later = insert_field key value rest in
    if str_eq k key
    then field k value rest
    else if text_lt key k
    then field key value (field k v rest)
    else field k v later

unfoldable pub remove_field : String → Fields → Fields
remove_field key end = end
remove_field key (field k v rest) =
    if str_eq k key then remove_field key rest else field k v (remove_field key rest)

-- `Value::get`, and `value[key] = …`: a null becomes an object. The indexing panics on the other
-- values, which the connector never indexes: it rewrites messages of its own making only.
unfoldable pub get : String → Value → Option Value
unfolding find_field
get key (object fields) = find_field key fields
get key v = none

unfoldable pub set : String → Value → Value → Value
unfolding insert_field
set key value (object fields) = object (insert_field key value fields)
set key value null = object (field key value end)
set key value v = v

abbrev pub as_str : Option Value → Option String
as_str (some (string s)) = some s
as_str v = none

abbrev pub as_bool : Option Value → Option Bool
as_bool (some (bool b)) = some b
as_bool v = none
