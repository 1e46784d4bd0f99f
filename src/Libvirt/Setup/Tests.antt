-- ===== src/Libvirt/Setup/Tests.antt =====
-- The start of the runtime of cross-node-rental/src/workspace/libvirt_provider.rs on a host that
-- answers every command with success.
use decentralized_cc_mesh_po.Libvirt.Host.{History, run_cmd_with_timeout}
use decentralized_cc_mesh_po.Libvirt.Setup.{
  config_of, address_missing, check_tools, create_dirs, preflight, from_env,
}
use decentralized_cc_mesh_po.Base.{
  if◌then◌else◌, ok, err, ◌≡◌, refl, Bool, true, none, some, List, [], ◌∷◌, str_eq,
}
use decentralized_cc_mesh_po.Env.{Vars}
use decentralized_cc_mesh_po.Libvirt.Samples.{host, wanted}
use decentralized_cc_mesh_po.Libvirt.Text.{Text, codes}
use decentralized_cc_mesh_po.Libvirt.Runtime.{Runtime, new}
use decentralized_cc_mesh_po.Libvirt.Runtime.Accounting.{Request, creates, starts, removes}
use decentralized_cc_mesh_po.Libvirt.Setup.Started.{Onward, Starts, start_accounts}

abbrev all_there : Text → History → Bool
all_there path h = true

abbrev with_address : Vars
with_address name = if str_eq name "LIBVIRT_HOST_IPV6" then some "2001:db8::1" else none

abbrev begun : Runtime
begun = new (config_of with_address "2001:db8::1") (from_env host all_there with_address []).0

begins : (from_env host all_there with_address []).1 ≡ ok begun
unfolding from_env preflight run_cmd_with_timeout check_tools create_dirs
begins = refl

abbrev a_day : List Request
a_day = creates wanted ∷ starts (codes "alice") ∷ removes (codes "alice") ∷ []

start_accounts_example :
    Onward [] (from_env host all_there with_address []).0
    × Starts host a_day (from_env host all_there with_address [])
start_accounts_example = start_accounts host all_there with_address [] a_day

-- Without the host's address nothing is done.
no_address : from_env host all_there (λ name. none) [] ≡ ([], err address_missing)
unfolding from_env
no_address = refl
