-- ===== src/Libvirt/Runtime.antt =====
-- The runtime of cross-node-rental/src/workspace/libvirt_provider.rs: the tenants, their ports and
-- the operations on them. Creation, start, stop and removal hold `lifecycle_lock` from their first
-- to their last step, and no other method changes the tenants or the ports, so that a history of
-- the runtime is one operation after the other. Here are its state and its texts.
pub mod Create
pub mod Operate
pub mod Holders
pub mod Accounting
pub mod Names
pub mod Removal
pub mod Status
use decentralized_cc_mesh_po.Base.{if◌then◌else◌, ℕ, Option, none, some, List, [], ◌∷◌, ◌++◌}
use decentralized_cc_mesh_po.Libvirt.Text.{Text, codes, text_eq, is_empty, take}
use decentralized_cc_mesh_po.Libvirt.Host.{History, Config}

pub record TenantState : Type 0 where
  pub host_port : ℕ
  pub tenant_ip : Option Text
  pub socat_pid : Option ℕ
  pub overlay_path : Text
  pub seed_path : Text
  pub serial_log_path : Text
  pub vnc_ws_port : Option ℕ

-- `HashMap<String, TenantState>`.
abbrev pub Tenants : Type 0
Tenants = List (Text × TenantState)

abbrev pub get : Text → Tenants → Option TenantState
get name [] = none
get name ((n, t) ∷ ts) = if text_eq n name then some t else get name ts

abbrev pub update : Text → (TenantState → TenantState) → Tenants → Tenants
update name f [] = []
update name f ((n, t) ∷ ts) = if text_eq n name then (n, f t) ∷ ts else (n, t) ∷ update name f ts

abbrev pub insert : Text → TenantState → Tenants → Tenants
insert name state [] = (name, state) ∷ []
insert name state ((n, t) ∷ ts) =
    if text_eq n name then (n, state) ∷ ts else (n, t) ∷ insert name state ts

abbrev pub delete : Text → Tenants → Tenants
delete name [] = []
delete name ((n, t) ∷ ts) = if text_eq n name then ts else (n, t) ∷ delete name ts

pub record Runtime : Type 0 where
  pub config : Config
  pub tenants : Tenants
  pub allocated_ports : List ℕ
  pub history : History

-- The fields of `ContainerConfig` that this runtime reads; the key is the value of
-- `SSH_AUTHORIZED_KEY` in `environment`.
pub record ContainerConfig : Type 0 where
  pub name : Option Text
  pub ssh_authorized_key : Option Text
  pub ram_mb : ℕ

-- `from_env`, where its checks of the host pass.
abbrev pub new : Config → History → Runtime
new c h = record { config = c; tenants = []; allocated_ports = []; history = h }

pub key_missing : Text
key_missing =
    codes
      "SSH_AUTHORIZED_KEY missing from ContainerConfig.environment — libvirt tenants need a public key for cloud-init authorized_keys"

pub key_malformed : Text
key_malformed =
    codes
      "SSH_AUTHORIZED_KEY is not a well-formed public key (must be one of ssh-ed25519 / ssh-rsa / ssh-dss / ecdsa-sha2-* / sk-* followed by a base64 blob, on a single line, no newlines or control bytes)"

pub name_invalid : Text → Text
name_invalid name =
    codes "tenant name '" ++ name ++ codes "' is invalid — must be 1..=64 chars of [a-zA-Z0-9_-]"

pub name_taken : Text → Text
name_taken name = codes "tenant '" ++ name ++ codes "' already exists"

pub not_tracked : Text → Text
not_tracked name = codes "tenant " ++ name ++ codes " not tracked in runtime state"

pub removed_during_start : Text → Text
removed_during_start name = codes "tenant " ++ name ++ codes " was removed during start_container"

-- The name asked for, or one made of the first eight digits of a UUID.
abbrev pub chosen_name : Option Text → Text → Text
chosen_name none uuid = codes "tenant-" ++ take 8 uuid
chosen_name (some n) uuid = if is_empty n then codes "tenant-" ++ take 8 uuid else n
