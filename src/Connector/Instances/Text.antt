-- ===== src/Connector/Instances/Text.antt =====
-- The bounded texts and the numbers in the report (crates/agent/src/connector.rs).
use Prim.Native.String.{count}
use text.Mathlib.TextLemmas.{length-nil, length-cons, length-append}
use chaop.Base.{
  ℕ, zero, suc, ◌-◌, ◌/◌, ◌%◌, ◌≤◌, ltb, leb, ◌==◌, ◌≡◌, refl, String, ◌str++◌, if◌then◌else◌,
  arith, Bool-cases, inl, inr, leb→le,
}

abbrev pub app_server_instance_text_limit : ℕ
app_server_instance_text_limit = 512

-- `chars().take(n)`.
unfoldable pub take_chars : ℕ → String → String
take_chars zero s = ""
take_chars (suc n) String.[] = ""
take_chars (suc n) (String.◌∷◌ c s) = String.◌∷◌ c (take_chars n s)

unfoldable pub bounded_app_server_instance_text : String → String
unfolding take_chars
bounded_app_server_instance_text value =
    if leb (count value) app_server_instance_text_limit
    then value
    else take_chars (app_server_instance_text_limit - 3) value str++ "..."

pub count-take_chars : (n : ℕ) (s : String) → count (take_chars n s) ≤ n
unfolding take_chars
count-take_chars zero s = omega (arith, length-nil)
count-take_chars (suc n) String.[] = omega (arith, length-nil)
count-take_chars (suc n) (String.◌∷◌ c s) =
    omega (arith, length-cons c (take_chars n s), count-take_chars n s)

count-dots : count "..." ≡ 3
count-dots = refl

-- No text of a report has more than 512 characters.
bounded_text :
    (value : String)
    → (count (bounded_app_server_instance_text value) ≤ app_server_instance_text_limit)
unfolding bounded_app_server_instance_text
bounded_text value = elim (Bool-cases (leb (count value) 512)) [
  | inl fits ↦ ground (arith, leb→le (count value) 512 fits)
  | inr long ↦
      let kept = take_chars (512 - 3) value in
      ground (arith, length-append kept "...", count-take_chars (512 - 3) value, count-dots)
]

abbrev digit : ℕ → String
digit d =
    if d == 0
    then "0"
    else if d == 1
    then "1"
    else if d == 2
    then "2"
    else if d == 3
    then "3"
    else if d == 4
    then "4"
    else if d == 5
    then "5"
    else if d == 6
    then "6"
    else if d == 7
    then "7"
    else if d == 8
    then "8"
    else "9"

-- A number in decimal, on as many digits as are left; 20 are enough for 64 bits.
decimal_digits : ℕ → ℕ → String
decimal_digits zero n = ""
decimal_digits (suc left) n =
    let rest = decimal_digits left (n / 10) in
    if ltb n 10 then digit n else rest str++ digit (n % 10)

unfoldable pub decimal : ℕ → String
unfolding decimal_digits
decimal n = decimal_digits 20 n

decimal_test : decimal 1203 ≡ "1203"
unfolding decimal
decimal_test = refl
