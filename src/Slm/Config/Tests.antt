-- ===== src/Slm/Config/Tests.antt =====
-- The configuration of slm-edge-inference/src/config.rs from some environments.
use decentralized_cc_mesh_po.Base.{if◌then◌else◌, ◌≡◌, refl, none, some, arith, str_eq}
use decentralized_cc_mesh_po.Libvirt.Text.{decimal}
use decentralized_cc_mesh_po.Env.{Vars, read_digits, from_str_radix, number_or}
use decentralized_cc_mesh_po.Slm.Config.{from_env, FitsWords, limit_read}

-- A larger device, with a number of tokens that does not fit.
abbrev larger : Vars
larger name =
    if str_eq name "SLM_MEMORY_LIMIT_MB"
    then some "1024"
    else if str_eq name "SLM_MAX_CONTEXT_TOKENS"
    then some "99999999999"
    else none

larger_limit : FitsWords (from_env larger) × ((from_env larger).memory_limit_mb ≡ 1024)
unfolding decimal
larger_limit = limit_read larger "1024" 1024 (omega arith) refl refl

-- A number that does not fit is as if it were not set.
tokens_default : (from_env larger).max_context_tokens ≡ 2048
unfolding from_env number_or from_str_radix read_digits
tokens_default = refl
