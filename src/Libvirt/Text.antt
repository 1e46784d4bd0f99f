-- ===== src/Libvirt/Text.antt =====
-- What cross-node-rental/src/workspace/libvirt_provider.rs uses of `str`: a text is the list of its
-- code points, and a literal is written as the codes of a string.
use Prim.Native.Char.{code}
use decentralized_cc_mesh_po.Base.{
  ltb, leb, ◌==◌, if◌then◌else◌, u16_mod, ℕ, zero, suc, ◌+◌, ◌-◌, ◌*◌, ◌/◌, ◌%◌, String, ◌≡◌, refl,
  Bool, true, false, not, ◌&&◌, ◌||◌, Option, none, some, List, [], ◌∷◌, ◌++◌, arith,
}

abbrev pub Text : Type 0
Text = List ℕ

abbrev pub codes : String → Text
codes String.[] = []
codes (String.◌∷◌ c s) = code c ∷ codes s

abbrev pub text_eq : Text → Text → Bool
text_eq [] [] = true
text_eq [] (d ∷ t) = false
text_eq (c ∷ s) [] = false
text_eq (c ∷ s) (d ∷ t) = c == d && text_eq s t

pub text_eq_refl : (s : Text) → text_eq s s ≡ true
text_eq_refl [] = refl
text_eq_refl (c ∷ s) = ground (arith, text_eq_refl s)

pub text_eq_sound : (s t : Text) → text_eq s t ≡ true → s ≡ t
text_eq_sound [] [] h = refl
text_eq_sound [] (d ∷ t) h = cc
text_eq_sound (c ∷ s) [] h = cc
text_eq_sound (c ∷ s) (d ∷ t) h = ground (arith, text_eq_sound s t)

-- `len`: the number of bytes in UTF-8.
abbrev pub utf8_len : ℕ → ℕ
utf8_len c = if ltb c 0x80 then 1 else if ltb c 0x800 then 2 else if ltb c 0x10000 then 3 else 4

abbrev pub len : Text → ℕ
len [] = 0
len (c ∷ s) = utf8_len c + len s

abbrev pub is_empty : Text → Bool
is_empty [] = true
is_empty (c ∷ s) = false

abbrev pub all : (ℕ → Bool) → Text → Bool
all p [] = true
all p (c ∷ s) = p c && all p s

abbrev pub any : (ℕ → Bool) → Text → Bool
any p [] = false
any p (c ∷ s) = p c || any p s

abbrev pub starts_with : Text → Text → Bool
starts_with s [] = true
starts_with [] (d ∷ t) = false
starts_with (c ∷ s) (d ∷ t) = c == d && starts_with s t

abbrev pub contains : Text → Text → Bool
contains [] t = starts_with [] t
contains (c ∷ s) t = starts_with (c ∷ s) t || contains s t

abbrev pub between : ℕ → ℕ → ℕ → Bool
between low high c = leb low c && leb c high

-- `is_ascii_digit`, `is_ascii_alphanumeric` and `char::is_whitespace`.
abbrev pub is_ascii_digit : ℕ → Bool
is_ascii_digit = between b'0' b'9'

abbrev pub is_ascii_alphanumeric : ℕ → Bool
is_ascii_alphanumeric c = is_ascii_digit c || between b'a' b'z' c || between b'A' b'Z' c

abbrev pub is_whitespace : ℕ → Bool
is_whitespace c =
    between 9 13 c
    || c == 32
    || c == 0x85
    || c == 0xA0
    || c == 0x1680
    || between 0x2000 0x200A c
    || c == 0x2028
    || c == 0x2029
    || c == 0x202F
    || c == 0x205F
    || c == 0x3000

abbrev pub drop_while : (ℕ → Bool) → Text → Text
drop_while p [] = []
drop_while p (c ∷ s) = if p c then drop_while p s else c ∷ s

abbrev pub take_until : (ℕ → Bool) → Text → Text
take_until p [] = []
take_until p (c ∷ s) = let rest = take_until p s in if p c then [] else c ∷ rest

-- `split_whitespace().next()`, or the empty text where there is no token.
abbrev pub first_token : Text → Text
first_token s = take_until is_whitespace (drop_while is_whitespace s)

-- The decimal form of a number of up to 64 bits.
unfoldable pub digits : ℕ → ℕ → Text
digits zero n = []
digits (suc fuel) n =
    let rest = digits fuel (n / 10) in (if ltb n 10 then [] else rest) ++ (b'0' + n % 10) ∷ []

unfoldable pub decimal : ℕ → Text
unfolding digits
decimal n = digits 20 n

-- `split_whitespace`, with the token that is being read.
abbrev pub tokens_from : Text → Text → List Text
tokens_from token [] = if is_empty token then [] else token ∷ []
tokens_from token (c ∷ s) =
    let rest = tokens_from [] s in
    let longer = tokens_from (token ++ c ∷ []) s in
    if is_whitespace c then (if is_empty token then rest else token ∷ rest) else longer

-- `lines`, with the line that is being read; a carriage return at its end goes.
abbrev pub strip_return : Text → Text
strip_return [] = []
strip_return (c ∷ []) = if c == 13 then [] else c ∷ []
strip_return (c ∷ d ∷ s) = c ∷ strip_return (d ∷ s)

abbrev pub lines_from : Text → Text → List Text
lines_from line [] = if is_empty line then [] else line ∷ []
lines_from line (c ∷ s) =
    let rest = lines_from [] s in
    let longer = lines_from (line ++ c ∷ []) s in
    if c == 10 then strip_return line ∷ rest else longer

abbrev pub tokens : Text → List Text
tokens = tokens_from []

abbrev pub lines : Text → List Text
lines = lines_from []

abbrev pub count_of : ℕ → Text → ℕ
count_of d [] = 0
count_of d (c ∷ s) = let rest = count_of d s in if c == d then rest + 1 else rest

-- What follows the first occurrence of a pattern.
abbrev pub drop : Text → Text → Text
drop [] s = s
drop (d ∷ t) [] = []
drop (d ∷ t) (c ∷ s) = drop t s

abbrev pub after_pattern : Text → Text → Option Text
after_pattern t [] = if starts_with [] t then some [] else none
after_pattern t (c ∷ s) =
    let later = after_pattern t s in if starts_with (c ∷ s) t then some (drop t (c ∷ s)) else later

-- `trim`, and `to_lowercase` on ASCII.
abbrev pub trim_end : Text → Text
trim_end [] = []
trim_end (c ∷ s) =
    let rest = trim_end s in if is_empty rest && is_whitespace c then [] else c ∷ rest

abbrev pub trim : Text → Text
trim s = trim_end (drop_while is_whitespace s)

abbrev pub to_lowercase : Text → Text
to_lowercase [] = []
to_lowercase (c ∷ s) = (if between b'A' b'Z' c then c + 32 else c) ∷ to_lowercase s

abbrev digits_value : ℕ → Text → ℕ
digits_value n [] = n
digits_value n (c ∷ s) = digits_value (10 * n + (c - b'0')) s

abbrev without_plus : Text → Text
without_plus [] = []
without_plus (c ∷ s) = if c == b'+' then s else c ∷ s

-- `parse::<u16>()`.
abbrev pub parse_u16 : Text → Option ℕ
parse_u16 s =
    let t = without_plus s in
    let n = digits_value 0 t in
    if is_empty t || not (all is_ascii_digit t)
    then none
    else if ltb n u16_mod
    then some n
    else none

abbrev pub take : ℕ → Text → Text
take zero s = []
take (suc n) [] = []
take (suc n) (c ∷ s) = c ∷ take n s
