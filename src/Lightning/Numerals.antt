-- ===== src/Lightning/Numerals.antt =====
-- How cross-node-rental/src/ldk_bolt12_capabilities.rs writes and reads a user's channel number: in
-- decimal where it opens a channel, in hexadecimal where it lists the channels, and in decimal again
-- where it closes one.
pub mod Read
use Prim.Native.Char.{code}
use Prim.Native.String.{◌++◌ as str_append}
use decentralized_cc_mesh_po.Base.{
  ltb, leb, ◌==◌, if◌then◌else◌, Result, ok, err, ℕ, zero, suc, ◌+◌, ◌-◌, ◌*◌, ◌/◌, ◌%◌, ◌^◌,
  String, true, false, ◌&&◌,
}

-- A digit of base ten or sixteen, as a text.
abbrev pub digit : ℕ → String
digit d =
    if d == 0
    then "0"
    else if d == 1
    then "1"
    else if d == 2
    then "2"
    else if d == 3
    then "3"
    else if d == 4
    then "4"
    else if d == 5
    then "5"
    else if d == 6
    then "6"
    else if d == 7
    then "7"
    else if d == 8
    then "8"
    else if d == 9
    then "9"
    else if d == 10
    then "a"
    else if d == 11
    then "b"
    else if d == 12
    then "c"
    else if d == 13
    then "d"
    else if d == 14
    then "e"
    else "f"

-- `to_string` of a number with at most `fuel` digits after the first.
pub decimal_from : ℕ → ℕ → String
decimal_from zero n = digit (n % 10)
decimal_from (suc fuel) n = elim (ltb n 10) [
  | true ↦ digit n
  | false ↦ str_append (decimal_from fuel (n / 10)) (digit (n % 10))
]

-- A `u128` has at most 39 digits.
unfoldable pub decimal : ℕ → String
decimal n = decimal_from 38 n

-- `format!("{:0w$x}", n)` for a number of at most `w` digits.
unfoldable pub hex : ℕ → ℕ → String
hex zero n = ""
hex (suc w) n = str_append (hex w (n / 16)) (digit (n % 16))

abbrev pub u128_mod : ℕ
u128_mod = 2 ^ 128

-- The digits of `parse::<u128>()`, read into `n`.
unfoldable pub parse_digits : String → ℕ → Result String ℕ
parse_digits String.[] n = ok n
parse_digits (String.◌∷◌ c s) n =
    let next = 10 * n + (code c - b'0') in
    let rest = parse_digits s next in
    if leb b'0' (code c) && leb (code c) b'9'
    then (if ltb next u128_mod then rest else err "number too large to fit in target type")
    else err "invalid digit found in string"

-- A leading plus is allowed if digits follow, an empty number is not.
unfoldable pub read_u128 : String → Result String ℕ
read_u128 String.[] = err "cannot parse integer from empty string"
read_u128 (String.◌∷◌ c String.[]) = parse_digits (String.◌∷◌ c String.[]) 0
read_u128 (String.◌∷◌ c (String.◌∷◌ d s)) =
    if code c == b'+'
    then parse_digits (String.◌∷◌ d s) 0
    else parse_digits (String.◌∷◌ c (String.◌∷◌ d s)) 0
