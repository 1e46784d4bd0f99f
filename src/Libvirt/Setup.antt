-- ===== src/Libvirt/Setup.antt =====
-- from_env of cross-node-rental/src/workspace/libvirt_provider.rs: the configuration from the
-- environment and the checks of the host. Which files exist is a parameter. Log lines are left out,
-- and with them the version of virsh.
pub mod Started
mod Tests
use decentralized_cc_mesh_po.Base.{
  if◌then◌else◌, u64_mod, Result, ok, err, ℕ, String, Bool, false, not, ◌||◌, Option, none, some,
  List, [], ◌∷◌, ◌++◌,
}
use decentralized_cc_mesh_po.Env.{Vars, text_or, number_or}
use decentralized_cc_mesh_po.Libvirt.Text.{Text, codes, text_eq, to_lowercase}
use decentralized_cc_mesh_po.Libvirt.Host.{
  create_dir, History, Output, Outside, Config, run_cmd_with_timeout,
}
use decentralized_cc_mesh_po.Libvirt.Runtime.{Runtime, new}

abbrev pub preflight_timeout : ℕ
preflight_timeout = 5

-- `map(|v| v == "1" || v.eq_ignore_ascii_case("true")).unwrap_or(false)`.
abbrev pub is_skipped : Option String → Bool
is_skipped none = false
is_skipped (some v) =
    text_eq (codes v) (codes "1") || text_eq (to_lowercase (codes v)) (codes "true")

abbrev pub config_of : Vars → String → Config
config_of vars host_ipv6 = record {
  base_image_path =
      codes (text_or "/srv/tenants/base/debian-13-trixie.qcow2" "LIBVIRT_BASE_IMAGE" vars);
  host_ipv6 = codes host_ipv6;
  tenant_key_path = codes (text_or "/root/.ssh/tenant_key" "LIBVIRT_TENANT_KEY" vars);
  overlay_dir = codes (text_or "/srv/tenants/overlays" "LIBVIRT_OVERLAY_DIR" vars);
  seed_dir = codes (text_or "/srv/tenants/seeds" "LIBVIRT_SEED_DIR" vars);
  serial_log_dir = codes (text_or "/srv/tenants/serial-logs" "LIBVIRT_SERIAL_LOG_DIR" vars);
  dhcp_timeout_secs = number_or u64_mod 180 "LIBVIRT_DHCP_TIMEOUT_SECS" vars;
}

abbrev pub address_missing : Text
address_missing = codes "LIBVIRT_HOST_IPV6 env var not set — required to build tenant access URLs"

abbrev pub required_tools : List Text
required_tools =
    codes "qemu-img" ∷ codes "virt-install" ∷ codes "cloud-localds" ∷ codes "socat" ∷ []

module _ (o : Outside) where
  abbrev pub version_of : Text → History → History × Result Text Output
  version_of tool h =
      run_cmd_with_timeout o tool (codes "--version" ∷ []) preflight_timeout
        (tool ++ codes " --version") h

  -- A tool may refuse to tell its version; it must only run.
  unfoldable pub check_tools : List Text → History → History × Result Text (Unit {0})
  check_tools [] h = (h, ok tt)
  check_tools (tool ∷ tools) h =
      let (h', out) = version_of tool h in
      elim out [ err e ↦ (h', err e) | ok _ ↦ check_tools tools h' ]

  unfoldable pub create_dirs : List Text → History → History × Result Text (Unit {0})
  create_dirs [] h = (h, ok tt)
  create_dirs (d ∷ ds) h =
      let h' = create_dir d ∷ h in
      elim (o.written h') [
        | err e ↦ (h', err (codes "failed to create " ++ d ++ codes ": " ++ e))
        | ok _ ↦ create_dirs ds h'
      ]

module _ (o : Outside) (exists : Text → History → Bool) where
  unfoldable pub preflight : History → History × Result Text (Unit {0})
  preflight h =
      if not (exists (codes "/dev/kvm") h)
      then (h, err (codes "/dev/kvm not present; nested virt unavailable"))
      else (let (h', out) = version_of o (codes "virsh") h in
          elim out [
            | err e ↦ (h', err e)
            | ok out ↦
                if not out.success
                then (h', err (codes "`virsh --version` failed"))
                else check_tools o required_tools h'
          ])

  -- The base image and the directories, after the checks.
  after_preflight : Config → History × Result Text (Unit {0}) → History × Result Text Runtime
  after_preflight c (h, err e) = (h, err e)
  after_preflight c (h, ok _) =
      if not (exists c.base_image_path h)
      then (h, err (codes "base image not found at " ++ c.base_image_path))
      else (let (h', made) = create_dirs o (c.overlay_dir ∷ c.seed_dir ∷ c.serial_log_dir ∷ []) h in
          elim made [ err e ↦ (h', err e) | ok _ ↦ (h', ok (new c h')) ])

  unfoldable pub from_env : Vars → History → History × Result Text Runtime
  unfolding after_preflight
  from_env vars h = elim (vars "LIBVIRT_HOST_IPV6") [
    | none ↦ (h, err address_missing)
    | some host_ipv6 ↦
        after_preflight (config_of vars host_ipv6)
          (if is_skipped (vars "LIBVIRT_SKIP_PREFLIGHT") then (h, ok tt) else preflight h)
  ]
