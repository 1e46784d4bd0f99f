-- ===== src/Libvirt/Host.antt =====
-- The commands that cross-node-rental/src/workspace/libvirt_provider.rs gives to its host. What it
-- has asked so far is a history, the latest first; how the host answers is a parameter that may
-- depend on the whole history. Log lines are left out.
pub mod Desktop
use decentralized_cc_mesh_po.Base.{
  if◌then◌else◌, Result, ok, err, ℕ, Bool, Option, none, some, List, [], ◌∷◌, ◌++◌,
}
use decentralized_cc_mesh_po.Libvirt.Text.{Text, codes, decimal, trim, to_lowercase}
use decentralized_cc_mesh_po.Libvirt.Validate.{build_disk_overlay_arg, user_data, meta_data}

pub data Action : Type 0 where
  run : Text → List Text → ℕ → Action
  spawn : Text → List Text → Action
  create_dir remove_dir remove_file : Text → Action
  write_file : Text → Text → Action
  sleep : ℕ → Action

abbrev pub History : Type 0
History = List Action

pub record Output : Type 0 where
  pub success : Bool
  pub stdout : Text
  pub stderr : Text

-- How a process ends, as `timeout(…, cmd.output())` tells it.
pub data Ended : Type 0 where
  exited : Output → Ended
  not_spawned : Text → Ended
  hung : Ended

-- The outcome of the action at the head of a history; the clock, and a fresh UUID's digits.
pub record Outside : Type 0 where
  pub ended : History → Ended
  pub written : History → Result Text (Unit {0})
  pub spawned : History → Result Text (Option ℕ)
  pub now_ms : History → ℕ
  pub uuid : History → Text

pub record Config : Type 0 where
  pub base_image_path : Text
  pub host_ipv6 : Text
  pub tenant_key_path : Text
  pub overlay_dir : Text
  pub seed_dir : Text
  pub serial_log_dir : Text
  pub dhcp_timeout_secs : ℕ

-- The timeouts in seconds.
abbrev pub virsh_timeout : ℕ
virsh_timeout = 10

abbrev pub qemu_img_timeout : ℕ
qemu_img_timeout = 60

abbrev pub cloud_localds_timeout : ℕ
cloud_localds_timeout = 30

abbrev pub virt_install_timeout : ℕ
virt_install_timeout = 120

abbrev pub kill_timeout : ℕ
kill_timeout = 5

abbrev pub ssh_timeout : ℕ
ssh_timeout = 30

of_ended : Ended → Text → ℕ → Result Text Output
of_ended (exited out) what secs = ok out
of_ended (not_spawned e) what secs = err (what ++ codes " spawn: " ++ e)
of_ended hung what secs = err (what ++ codes " timed out after " ++ decimal secs ++ codes "s")

-- The `if !out.status.success()` after a command.
succeed : Text → Result Text Output → Result Text Output
succeed what (err e) = err e
succeed what (ok out) =
    if out.success then ok out else err (what ++ codes " failed: " ++ trim out.stderr)

module _ (o : Outside) where
  unfoldable pub run_cmd_with_timeout :
      Text → List Text → ℕ → Text → History → History × Result Text Output
  unfolding of_ended
  run_cmd_with_timeout program args timeout_secs what h =
      let h' = run program args timeout_secs ∷ h in (h', of_ended (o.ended h') what timeout_secs)

  -- A `virsh` command.
  unfoldable pub virsh : List Text → Text → History → History × Result Text Output
  virsh args what h = run_cmd_with_timeout (codes "virsh") args virsh_timeout what h

  pub create_overlay : Config → Text → History → History × Result Text Text
  unfolding succeed
  create_overlay c name h =
      let overlay = c.overlay_dir ++ codes "/" ++ name ++ codes ".qcow2" in
      let (h', out) =
        run_cmd_with_timeout (codes "qemu-img")
          (codes "create"
            ∷ codes "-f"
            ∷ codes "qcow2"
            ∷ codes "-F"
            ∷ codes "qcow2"
            ∷ codes "-b"
            ∷ c.base_image_path
            ∷ overlay
            ∷ codes "20G"
            ∷ [])
          qemu_img_timeout (codes "qemu-img create") h in
      elim (succeed (codes "qemu-img create") out) [ ok _ ↦ (h', ok overlay) | err e ↦ (h', err e) ]

  -- The part of `create_cloud_init_seed` after the two writes; the stage directory goes on every
  -- path.
  seed_iso : Text → Text → Text → Text → History → History × Result Text Text
  unfolding succeed
  seed_iso seed workdir user_data_path meta_data_path h =
      let (h', out) =
        run_cmd_with_timeout (codes "cloud-localds") (seed ∷ user_data_path ∷ meta_data_path ∷ [])
          cloud_localds_timeout (codes "cloud-localds") h in
      let cleaned = remove_dir workdir ∷ h' in
      elim (succeed (codes "cloud-localds") out) [
        | ok _ ↦ (cleaned, ok seed)
        | err e ↦ (cleaned, err e)
      ]

  pub create_cloud_init_seed : Config → Text → Text → History → History × Result Text Text
  unfolding seed_iso
  create_cloud_init_seed c name pubkey h =
      let seed = c.seed_dir ++ codes "/" ++ name ++ codes "-seed.iso" in
      let workdir = c.seed_dir ++ codes "/" ++ name ++ codes "-stage" in
      let user_data_path = workdir ++ codes "/user-data" in
      let meta_data_path = workdir ++ codes "/meta-data" in
      let made = create_dir workdir ∷ h in
      let user_written = write_file user_data_path (user_data name pubkey) ∷ made in
      let meta_written = write_file meta_data_path (meta_data name) ∷ user_written in
      elim (o.written made) [
        | err e ↦ (made, err (codes "mkdir stage: " ++ e))
        | ok _ ↦ elim (o.written user_written) [
          | err e ↦ (remove_dir workdir ∷ user_written, err (codes "write user-data: " ++ e))
          | ok _ ↦ elim (o.written meta_written) [
            | err e ↦ (remove_dir workdir ∷ meta_written, err (codes "write meta-data: " ++ e))
            | ok _ ↦ seed_iso seed workdir user_data_path meta_data_path meta_written
          ]
        ]
      ]

  pub virt_install : Text → ℕ → Text → Text → Text → History → History × Result Text (Unit {0})
  unfolding succeed
  virt_install name ram_mb overlay seed serial_log h =
      let (h', out) =
        run_cmd_with_timeout (codes "virt-install")
          (codes "--name"
            ∷ name
            ∷ codes "--memory"
            ∷ decimal ram_mb
            ∷ codes "--vcpus"
            ∷ codes "1"
            ∷ codes "--cpu"
            ∷ codes
                "host-passthrough,check=partial,+spec-ctrl,+ssbd,+md-clear,+ibpb,+amd-ssbd,+amd-no-ssb"
            ∷ codes "--disk"
            ∷ build_disk_overlay_arg overlay
            ∷ codes "--disk"
            ∷ (codes "path=" ++ seed ++ codes ",device=cdrom")
            ∷ codes "--os-variant"
            ∷ codes "debian13"
            ∷ codes "--boot"
            ∷ codes "uefi"
            ∷ codes "--machine"
            ∷ codes "q35"
            ∷ codes "--network"
            ∷ codes "network=default,model=virtio,filterref=clean-traffic"
            ∷ codes "--graphics"
            ∷ codes "vnc,listen=127.0.0.1,websocket=-1"
            ∷ codes "--input"
            ∷ codes "tablet,bus=usb"
            ∷ codes "--serial"
            ∷ (codes "file,path=" ++ serial_log)
            ∷ codes "--noautoconsole"
            ∷ codes "--import"
            ∷ codes "--noreboot"
            ∷ [])
          virt_install_timeout (codes "virt-install") h in
      elim (succeed (codes "virt-install") out) [ ok _ ↦ (h', ok tt) | err e ↦ (h', err e) ]

  unfoldable pub start_socat_forward : ℕ → Text → History → History × Result Text ℕ
  start_socat_forward port tenant_ip h =
      let h' =
        spawn (codes "socat") (
          (codes "TCP6-LISTEN:" ++ decimal port ++ codes ",fork,reuseaddr")
          ∷ (codes "TCP4:" ++ tenant_ip ++ codes ":22")
          ∷ [])
        ∷ h in
      elim (o.spawned h') [
        | err e ↦ (h', err (codes "socat spawn: " ++ e))
        | ok none ↦ (h', err (codes "socat has no pid"))
        | ok (some pid) ↦ (h', ok pid)
      ]

  -- Whether the kill works is only logged.
  unfoldable pub kill_pid : ℕ → History → History
  kill_pid pid h =
      (run_cmd_with_timeout (codes "kill") (decimal pid ∷ []) kill_timeout (codes "kill") h).0

  unfoldable pub read_domstate : Text → History → History × Result Text Text
  unfolding succeed
  read_domstate container_id h =
      let (h', out) = virsh (codes "domstate" ∷ container_id ∷ []) (codes "virsh domstate") h in
      elim (succeed (codes "virsh domstate") out) [
        | ok out ↦ (h', ok (to_lowercase (trim out.stdout)))
        | err e ↦ (h', err e)
      ]
