-- ===== src/Env.antt =====
-- How the configurations of slm-edge-inference/src/config.rs, tee-foundation/src/config.rs and
-- cross-node-rental/src/workspace/libvirt_provider.rs read the environment: the variables are a
-- parameter, and one that is not set or not Unicode is absent.
pub mod Numbers
use decentralized_cc_mesh_po.Base.{
  ltb, ◌==◌, if◌then◌else◌, ℕ, ◌+◌, ◌-◌, ◌*◌, String, Bool, true, false, ◌&&◌, Option, none, some,
  List, [], ◌∷◌, str_eq,
}
use decentralized_cc_mesh_po.Json.{unwrap_or}
use decentralized_cc_mesh_po.Libvirt.Text.{Text, codes, between}

abbrev pub Vars : Type 0
Vars = String → Option String

-- `char::to_digit`, for a radix of at most 16.
abbrev pub to_digit : ℕ → ℕ → Option ℕ
to_digit radix c =
    let d =
      if between b'0' b'9' c
      then c - b'0'
      else if between b'a' b'z' c
      then c - b'a' + 10
      else if between b'A' b'Z' c
      then c - b'A' + 10
      else radix in
    if ltb d radix then some d else none

-- The digits of `from_str_radix`, read into `n`; a number of the word's modulus or more is refused.
unfoldable pub read_digits : ℕ → ℕ → ℕ → Text → Option ℕ
read_digits radix modulus n [] = some n
read_digits radix modulus n (c ∷ s) = elim (to_digit radix c) [
  | none ↦ none
  | some d ↦
      if ltb (radix * n + d) modulus then read_digits radix modulus (radix * n + d) s else none
]

-- An empty text is refused, a leading plus is allowed if digits follow.
unfoldable pub from_str_radix : ℕ → ℕ → Text → Option ℕ
from_str_radix radix modulus [] = none
from_str_radix radix modulus (c ∷ []) = read_digits radix modulus 0 (c ∷ [])
from_str_radix radix modulus (c ∷ d ∷ s) =
    if c == b'+'
    then read_digits radix modulus 0 (d ∷ s)
    else read_digits radix modulus 0 (c ∷ d ∷ s)

-- `unwrap_or_else(|_| default)`.
abbrev pub text_or : String → String → Vars → String
text_or default name vars = unwrap_or default (vars name)

-- `unwrap_or_else(|_| "false") == "true"`.
abbrev pub is_true : String → Vars → Bool
is_true name vars = str_eq (text_or "false" name vars) "true"

-- `.ok().and_then(|s| s.parse().ok()).unwrap_or(default)`, for a word of the modulus.
unfoldable pub number_or : ℕ → ℕ → String → Vars → ℕ
number_or modulus default name vars = elim (vars name) [
  | none ↦ default
  | some s ↦ unwrap_or default (from_str_radix 10 modulus (codes s))
]
