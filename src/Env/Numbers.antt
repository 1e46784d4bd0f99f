-- ===== src/Env/Numbers.antt =====
-- The numbers that the configurations read from the environment.
use native.Mathlib.Nat.{pow-suc}
use decentralized_cc_mesh_po.Base.{
  ltb, ◌==◌, if◌then◌else◌, Bool-cases, Option-cases, ℕ, zero, suc, ◌+◌, ◌*◌, ◌/◌, ◌%◌, ◌^◌, ◌<◌,
  ◌≡◌, refl, ◌∙◌, inl, inr, String, some, [], ◌∷◌, ◌++◌, arith,
}
use decentralized_cc_mesh_po.Libvirt.Text.{Text, codes, digits, decimal}
use decentralized_cc_mesh_po.Env.{Vars, to_digit, read_digits, from_str_radix, number_or}

read_digits-lt :
    (radix modulus n : ℕ) (s : Text) (r : ℕ)
    → n < modulus
    → read_digits radix modulus n s ≡ some r
    → r < modulus
unfolding read_digits
read_digits-lt radix modulus n [] r l e = ground arith
read_digits-lt radix modulus n (c ∷ s) r l e = elim (Option-cases (to_digit radix c)) [
  | inl h ↦ ground arith
  | inr (d, h) ↦ ground (arith, read_digits-lt radix modulus (radix * n + d) s r)
]

from_str_radix-lt :
    (radix modulus : ℕ) (s : Text) (r : ℕ)
    → 0 < modulus
    → from_str_radix radix modulus s ≡ some r
    → r < modulus
unfolding from_str_radix
from_str_radix-lt radix modulus [] r l e = cc
from_str_radix-lt radix modulus (c ∷ []) r l e = read_digits-lt radix modulus 0 (c ∷ []) r l e
from_str_radix-lt radix modulus (c ∷ d ∷ s) r l e = ground (
  arith,
  read_digits-lt radix modulus 0 (d ∷ s) r l,
  read_digits-lt radix modulus 0 (c ∷ d ∷ s) r l,
)

-- A number that is read fits in its word, whatever the variable holds, if the default does.
pub number_or-lt :
    (modulus default : ℕ) (name : String) (vars : Vars)
    → default < modulus
    → number_or modulus default name vars < modulus
unfolding number_or
number_or-lt modulus default name vars l = elim (Option-cases (vars name)) [
  | inl e ↦ rw (e, number_or) l
  | inr (s, e) ↦
      rw (e, number_or)
        (elim (Option-cases (from_str_radix 10 modulus (codes s))) [
          | inl f ↦ rw f l
          | inr (r, f) ↦ rw f (from_str_radix-lt 10 modulus (codes s) r (omega arith) f)
        ])
]

-- A digit is read after a number.
read_digits-append :
    (modulus n d : ℕ) (s : Text) (r : ℕ)
    → d < 10
    → 10 * r + d < modulus
    → read_digits 10 modulus n s ≡ some r
    → read_digits 10 modulus n (s ++ (b'0' + d) ∷ []) ≡ some (10 * r + d)
unfolding read_digits
read_digits-append modulus n d [] r l h e = ground arith
read_digits-append modulus n d (c ∷ s) r l h e = elim (Option-cases (to_digit 10 c)) [
  | inl f ↦ ground arith
  | inr (k, f) ↦ ground (arith, read_digits-append modulus (10 * n + k) d s r l h)
]

read-digits :
    (modulus fuel n : ℕ)
    → n < modulus
    → n < 10 ^ fuel
    → read_digits 10 modulus 0 (digits fuel n) ≡ some n
unfolding digits read_digits
read-digits modulus zero n l h = ground arith
read-digits modulus (suc fuel) n l h = elim (Bool-cases (ltb n 10)) [
  | inl less ↦ rw (less, digits) (ground arith)
  | inr more ↦
      rw (more, digits)
        (read_digits-append modulus 0 (n % 10) (digits fuel (n / 10)) (n / 10) (omega arith)
            (omega arith)
            (read-digits modulus fuel (n / 10) (omega arith) (omega (arith, pow-suc 10 fuel)))
          ∙ ground arith)
]

from_str_radix-read :
    (modulus c : ℕ) (s : Text) (r : ℕ)
    → read_digits 10 modulus 0 (c ∷ s) ≡ some r
    → from_str_radix 10 modulus (c ∷ s) ≡ some r
unfolding from_str_radix read_digits
from_str_radix-read modulus c [] r e = e
from_str_radix-read modulus c (d ∷ s) r e = elim (Bool-cases (c == b'+')) [
  | inl plus ↦ ground arith
  | inr other ↦ rw other e
]

append-is_cons : (s : Text) (d : ℕ) → (c : ℕ) × (t : Text) × (s ++ d ∷ [] ≡ c ∷ t)
append-is_cons [] d = (d, [], refl)
append-is_cons (c ∷ s) d = (c, s ++ d ∷ [], refl)

digits-is_cons : (fuel n : ℕ) → (c : ℕ) × (t : Text) × (digits (suc fuel) n ≡ c ∷ t)
unfolding digits
digits-is_cons fuel n =
    append-is_cons (if ltb n 10 then [] else digits fuel (n / 10)) (b'0' + n % 10)

-- A variable that holds a number of up to 64 bits in decimal, with no sign and no needless zeros, is
-- read as that number, if it fits in the word that is asked for.
pub number_or-decimal :
    (modulus default n : ℕ) (name text : String) (vars : Vars)
    → n < modulus
    → n < 2 ^ 64
    → vars name ≡ some text
    → codes text ≡ decimal n
    → number_or modulus default name vars ≡ n
unfolding number_or decimal
number_or-decimal modulus default n name text vars l w set written =
    let (c, t, e) = digits-is_cons 19 n in
    let digits_read = read-digits modulus 20 n l (omega arith) in
    rw (set, number_or)
      (rw written (rw e (rw (from_str_radix-read modulus c t n (rw e at digits_read)) refl)))
