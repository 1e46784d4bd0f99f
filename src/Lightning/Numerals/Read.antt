-- ===== src/Lightning/Numerals/Read.antt =====
-- What cross-node-rental/src/ldk_bolt12_capabilities.rs reads of the channel numbers that it writes.
use Prim.Native.Char.{code}
use text.Mathlib.TextLemmas
use mathlib.Core.Path.{subst}
use native.Mathlib.Nat.{pow-suc}
use Prim.Native.String.{◌++◌ as str_append}
use decentralized_cc_mesh_po.Lightning.Numerals.{
  digit, decimal_from, decimal, hex, u128_mod, parse_digits, read_u128,
}
use decentralized_cc_mesh_po.Base.{
  ltb, ◌==◌, if◌then◌else◌, ==_iff, Bool-cases, Result, ok, err, ◌>>=◌, ℕ, zero, suc, ◌+◌, ◌-◌, ◌*◌,
  ◌/◌, ◌%◌, ◌^◌, ◌≤◌, ◌<◌, String, ◌≡◌, refl, sym, ap, ◌∙◌, ◌⊎◌, inl, inr, Bool, true, false, not,
  arith,
}

parse-append :
    (s t : String) (k : ℕ) → parse_digits (str_append s t) k ≡ parse_digits s k >>= parse_digits t
unfolding parse_digits
parse-append String.[] t k = ap (λ s. parse_digits s k) (TextLemmas.nil-append t)
parse-append (String.◌∷◌ c s) t k =
    ap (λ s. parse_digits s k) (TextLemmas.cons-append c s t)
    ∙ ground (arith, parse-append s t (10 * k + (code c - b'0')))

-- A digit as it is read after a number.
abbrev read_digit : ℕ → ℕ → Result String ℕ
read_digit d k =
    if ltb d 10
    then (if ltb (10 * k + d) u128_mod
        then ok (10 * k + d)
        else err "number too large to fit in target type")
    else err "invalid digit found in string"

-- A statement about each number below a bound.
abbrev Below : (ℕ → Type 0) → ℕ → Type 0
Below P zero = Unit {0}
Below P (suc n) = P n × Below P n

at_each : (P : ℕ → Type 0) (n d : ℕ) → Below P n → d < n → P d
at_each P zero d v l = absurd (omega arith)
at_each P (suc n) d (here, v) l = elim (Bool-cases (d == n)) [
  | inl same ↦ subst P (sym ((==_iff d n).0 same)) here
  | inr other ↦ at_each P n d v (ground arith)
]

parse-digit : (d k : ℕ) → d < 16 → parse_digits (digit d) k ≡ read_digit d k
unfolding parse_digits
parse-digit d k l = at_each (λ i. parse_digits (digit i) k ≡ read_digit i k) 16 d (ground arith) l

parse-decimal :
    (fuel n : ℕ) → n < 10 * 10 ^ fuel → n < u128_mod → parse_digits (decimal_from fuel n) 0 ≡ ok n
unfolding decimal_from
parse-decimal zero n l small = parse-digit (n % 10) 0 (omega arith) ∙ ground arith
parse-decimal (suc fuel) n l small = elim (Bool-cases (ltb n 10)) [
  | inl less ↦ rw (decimal_from, less) (parse-digit n 0 (ground arith) ∙ ground arith)
  | inr more ↦
      let first = parse-decimal fuel (n / 10) (omega (arith, pow-suc 10 fuel)) (omega arith) in
      let both = parse-append (decimal_from fuel (n / 10)) (digit (n % 10)) 0 in
      let last = parse-digit (n % 10) (n / 10) (omega arith) in
      rw (decimal_from, more)
        (both ∙ ap (λ r. r >>= parse_digits (digit (n % 10))) first ∙ last ∙ ground arith)
]

digit-hex :
    (n r : ℕ) (higher : Result String ℕ)
    → ((k : ℕ) → higher ≡ ok k → k ≤ n / 16)
    → higher >>= parse_digits (digit (n % 16)) ≡ ok r
    → (r ≤ n) × ((n < 10) ⊎ (r < n))
digit-hex n r (err _) below e = absurd cc
digit-hex n r (ok k) below e = ground (arith, parse-digit (n % 16) k (omega arith), below k refl)

parse-hex :
    (w n r : ℕ) → parse_digits (hex w n) 0 ≡ ok r → n < 16 ^ w → (r ≤ n) × ((n < 10) ⊎ (r < n))
unfolding hex parse_digits
parse-hex zero n r e small = ground arith
parse-hex (suc w) n r e small =
    let fits : n / 16 < 16 ^ w = omega (arith, pow-suc 16 w) in
    let both = sym (parse-append (hex w (n / 16)) (digit (n % 16)) 0) ∙ e in
    digit-hex n r (parse_digits (hex w (n / 16)) 0) (λ k h. (parse-hex w (n / 16) k h fits).0) both

-- A number that does not begin with a plus is read from its first digit on.
starts_plain : String → Bool
starts_plain String.[] = false
starts_plain (String.◌∷◌ c s) = not (code c == b'+')

read-plain : (s : String) → starts_plain s ≡ true → read_u128 s ≡ parse_digits s 0
unfolding starts_plain read_u128
read-plain String.[] e = absurd cc
read-plain (String.◌∷◌ c String.[]) e = refl
read-plain (String.◌∷◌ c (String.◌∷◌ d s)) e = ground arith

plain-append : (s t : String) → starts_plain s ≡ true → starts_plain (str_append s t) ≡ true
unfolding starts_plain
plain-append String.[] t e = absurd cc
plain-append (String.◌∷◌ c s) t e = ap starts_plain (TextLemmas.cons-append c s t) ∙ e

plain-digit : (d : ℕ) → d < 16 → starts_plain (digit d) ≡ true
unfolding starts_plain
plain-digit d l = at_each (λ i. starts_plain (digit i) ≡ true) 16 d (ground arith) l

plain-decimal : (fuel n : ℕ) → starts_plain (decimal_from fuel n) ≡ true
unfolding decimal_from
plain-decimal zero n = plain-digit (n % 10) (omega arith)
plain-decimal (suc fuel) n = elim (Bool-cases (ltb n 10)) [
  | inl less ↦ rw (decimal_from, less) (plain-digit n (ground arith))
  | inr more ↦
      rw (decimal_from, more)
        (plain-append (decimal_from fuel (n / 10)) (digit (n % 10)) (plain-decimal fuel (n / 10)))
]

plain-hex : (w n : ℕ) → starts_plain (hex (suc w) n) ≡ true
unfolding hex
plain-hex zero n =
    ap starts_plain (TextLemmas.nil-append (digit (n % 16))) ∙ plain-digit (n % 16) (omega arith)
plain-hex (suc w) n = plain-append (hex (suc w) (n / 16)) (digit (n % 16)) (plain-hex w (n / 16))

-- The decimal form in which a new channel's number is answered is read back as that number.
pub read-decimal : (n : ℕ) → n < u128_mod → read_u128 (decimal n) ≡ ok n
unfolding decimal
read-decimal n small =
    read-plain (decimal_from 38 n) (plain-decimal 38 n)
    ∙ parse-decimal 38 n (omega (arith, small)) small

-- The hexadecimal form in which the channels are listed is never read back as the channel's number
-- from ten on: if it is read at all, then as a smaller one.
pub read-hex : (n r : ℕ) → 10 ≤ n → n < u128_mod → read_u128 (hex 32 n) ≡ ok r → r < n
read-hex n r large small e =
    ground (arith, parse-hex 32 n r (sym (read-plain (hex 32 n) (plain-hex 31 n)) ∙ e))
