-- ===== src/Lightning/Request.antt =====
-- The answers of cross-node-rental/src/ldk_bolt12_capabilities.rs and how its handlers read their
-- requests.
use Prim.Native.String.{◌++◌ as str_append}
use decentralized_cc_mesh_po.Base.{Result, ok, err, ok_or, ℕ, String, true, false, Option, [], ◌∷◌}
use decentralized_cc_mesh_po.Json.{Json, string, get_str, get_u64, json}
use decentralized_cc_mesh_po.Lightning.Node.{Reply, replies}

-- `ok` and `err` of the source.
abbrev pub succeed : Json → Reply
succeed payload = replies true payload

abbrev pub fail : String → Reply
fail message = replies false (json (("error", string message) ∷ []))

abbrev pub missing : String → String
missing key = str_append "missing required field '" (str_append key "'")

abbrev pub required : {A : Type 0} → String → Option A → Result String A
required key found = ok_or found (missing key)

abbrev pub required_str : String → Json → Result String String
required_str key payload = required key (get_str key payload)

abbrev pub required_u64 : String → Json → Result String ℕ
required_u64 key payload = required key (get_u64 key payload)

-- An error under what it is about.
abbrev pub about : {A : Type 0} → String → Result String A → Result String A
about what (ok a) = ok a
about what (err e) = err (str_append what e)

module _ {N : Type 0} where
  -- A handler whose checks come to a request `Q` or to an early return.
  abbrev pub checked : {Q : Type 0} → Result String Q → (Q → N × Reply) → N → N × Reply
  checked (ok q) handle n = handle q
  checked (err e) handle n = (n, fail e)

  -- The answer that a call of the node leads to.
  abbrev pub answered : {B : Type 0} → String → (B → Json) → N × Result String B → N × Reply
  answered what show (n, ok b) = (n, succeed (show b))
  answered what show (n, err e) = (n, fail (str_append what e))
