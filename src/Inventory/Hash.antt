-- ===== src/Inventory/Hash.antt =====
-- `stable_hash` of crates/agent/src/session_inventory.rs: the FNV-1a hash of a text's UTF-8 bytes, in
-- 32 bits, as eight hexadecimal digits.
use Prim.Native.Char.{code}
use chaop.Base.{
  ℕ, zero, suc, ◌+◌, ◌*◌, ◌/◌, ◌%◌, ◌^◌, ltb, ◌==◌, String, ◌str++◌, List, [], ◌∷◌, ◌++◌,
  if◌then◌else◌, ◌≡◌, refl,
}
use chaop.Connector.Instances.Text.{decimal}

utf8_char : ℕ → List ℕ
utf8_char n =
    if ltb n 128
    then n ∷ []
    else if ltb n 2048
    then (192 + n / 64) ∷ (128 + n % 64) ∷ []
    else if ltb n 65536
    then (224 + n / 4096) ∷ (128 + n / 64 % 64) ∷ (128 + n % 64) ∷ []
    else (240 + n / 262144) ∷ (128 + n / 4096 % 64) ∷ (128 + n / 64 % 64) ∷ (128 + n % 64) ∷ []

utf8 : String → List ℕ
unfolding utf8_char
utf8 String.[] = []
utf8 (String.◌∷◌ c s) = utf8_char (code c) ++ utf8 s

-- `^`, on as many bits as are left.
xor : ℕ → ℕ → ℕ → ℕ
xor zero a b = 0
xor (suc bits) a b =
    let rest = xor bits (a / 2) (b / 2) in (if a % 2 == b % 2 then 0 else 1) + 2 * rest

hash_bytes : ℕ → List ℕ → ℕ
unfolding xor
hash_bytes hash [] = hash
hash_bytes hash (b ∷ bs) = hash_bytes (xor 32 hash b * 16777619 % 2 ^ 32) bs

abbrev hex_digit : ℕ → String
hex_digit d =
    if ltb d 10
    then decimal d
    else if d == 10
    then "a"
    else if d == 11
    then "b"
    else if d == 12
    then "c"
    else if d == 13
    then "d"
    else if d == 14
    then "e"
    else "f"

hex : ℕ → ℕ → String
unfolding decimal
hex zero n = ""
hex (suc digits) n = hex digits (n / 16) str++ hex_digit (n % 16)

unfoldable pub stable_hash : String → String
unfolding utf8 hash_bytes hex
stable_hash value = hex 8 (hash_bytes 2166136261 (utf8 value))

empty_test : stable_hash "" ≡ "811c9dc5"
unfolding stable_hash
empty_test = refl

letter_test : stable_hash "a" ≡ "e40c292c"
unfolding stable_hash
letter_test = refl
