-- ===== src/Json.antt =====
-- What the program uses of `serde_json::Value`: objects as lists of fields, and integers for numbers
-- (no value that the program reads or makes is a fraction).
use decentralized_cc_mesh_po.Base.{
  ltb, if◌then◌else◌, u64_mod, ℕ, ◌/◌, String, Bool, Option, none, some, List, [], ◌∷◌, str_eq,
}

mutual
  pub data Json : Type 0 where
    null : Json
    boolean : Bool → Json
    number negative : ℕ → Json
    string : String → Json
    array : Items → Json
    object : Fields → Json

  pub data Items : Type 0 where
    nil : Items
    cons : Json → Items → Items

  pub data Fields : Type 0 where
    end : Fields
    field : String → Json → Fields → Fields

-- An `i64`: a number, or `negsuc n` for -(n + 1).
pub data I64 : Type 0 where
  pos negsuc : ℕ → I64

abbrev pub get_field : String → Fields → Option Json
get_field key end = none
get_field key (field k v fs) = if str_eq k key then some v else get_field key fs

-- `Value::get` by a key.
abbrev pub get : String → Json → Option Json
get key (object fs) = get_field key fs
get key _ = none

abbrev pub as_str : Json → Option String
as_str (string s) = some s
as_str _ = none

abbrev pub as_u64 : Json → Option ℕ
as_u64 (number n) = if ltb n u64_mod then some n else none
as_u64 _ = none

-- `negative n` is the number -(n + 1).
abbrev pub as_i64 : Json → Option I64
as_i64 (number n) = if ltb n (u64_mod / 2) then some (pos n) else none
as_i64 (negative n) = if ltb n (u64_mod / 2) then some (negsuc n) else none
as_i64 _ = none

abbrev pub as_bool : Json → Option Bool
as_bool (boolean b) = some b
as_bool _ = none

abbrev pub and_then {ℓ κ} : {A : Type ℓ} {B : Type κ} → (A → Option B) → Option A → Option B
and_then f none = none
and_then f (some a) = f a

-- `payload.get(key).and_then(|v| v.as_…())`.
abbrev pub get_str : String → Json → Option String
get_str key payload = and_then as_str (get key payload)

abbrev pub get_u64 : String → Json → Option ℕ
get_u64 key payload = and_then as_u64 (get key payload)

abbrev pub get_i64 : String → Json → Option I64
get_i64 key payload = and_then as_i64 (get key payload)

abbrev pub get_bool : String → Json → Option Bool
get_bool key payload = and_then as_bool (get key payload)

abbrev pub unwrap_or {ℓ} : {A : Type ℓ} → A → Option A → A
unwrap_or d none = d
unwrap_or d (some a) = a

abbrev fields_of : List (String × Json) → Fields
fields_of [] = end
fields_of ((k, v) ∷ fs) = field k v (fields_of fs)

abbrev pub items_of : List Json → Items
items_of [] = nil
items_of (v ∷ vs) = cons v (items_of vs)

-- `json!({ … })` and `json!([ … ])`.
abbrev pub json : List (String × Json) → Json
json fs = object (fields_of fs)

abbrev pub json_array : List Json → Json
json_array vs = array (items_of vs)

-- An `Option` as `json!` shows it.
abbrev pub opt_string : Option String → Json
opt_string none = null
opt_string (some s) = string s

abbrev pub opt_number : Option ℕ → Json
opt_number none = null
opt_number (some n) = number n
