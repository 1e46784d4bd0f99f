-- ===== src/Libvirt/Validate.antt =====
-- The checks of cross-node-rental/src/workspace/libvirt_provider.rs on what a renter supplies, and
-- the texts that are made of it.
pub mod Seed
use decentralized_cc_mesh_po.Base.{
  ltb, leb, ◌==◌, if◌then◌else◌, ℕ, Bool, false, not, ◌&&◌, ◌||◌, [], ◌∷◌, ◌++◌,
}
use decentralized_cc_mesh_po.Libvirt.Text.{
  Text, codes, text_eq, len, is_empty, all, any, starts_with, is_ascii_alphanumeric, first_token,
}

abbrev is_name_byte : ℕ → Bool
is_name_byte b = is_ascii_alphanumeric b || b == b'-' || b == b'_'

unfoldable pub is_valid_tenant_name : Text → Bool
is_valid_tenant_name name = not (is_empty name) && leb (len name) 64 && all is_name_byte name

abbrev is_line_break : ℕ → Bool
is_line_break b = b == 10 || b == 13 || b == 0

-- The `matches!` and the prefixes.
is_key_type : Text → Bool
is_key_type token =
    text_eq token (codes "ssh-ed25519")
    || text_eq token (codes "ssh-rsa")
    || text_eq token (codes "ssh-dss")
    || starts_with token (codes "ecdsa-sha2-")
    || starts_with token (codes "sk-ssh-ed25519@")
    || starts_with token (codes "sk-ecdsa-sha2-")

-- An empty first token stands for `None`: no key type is empty.
unfoldable pub is_valid_ssh_pubkey : Text → Bool
unfolding is_key_type
is_valid_ssh_pubkey key =
    if is_empty key || ltb 8192 (len key)
    then false
    else if any is_line_break key
    then false
    else is_key_type (first_token key)

unfoldable pub build_disk_overlay_arg : Text → Text
build_disk_overlay_arg overlay_path =
    codes "path=" ++ overlay_path ++ codes ",format=qcow2,bus=virtio,cache=writethrough"

abbrev newline : Text
newline = 10 ∷ []

-- The `user_data` and the `meta_data` of `create_cloud_init_seed`.
unfoldable pub user_data : Text → Text → Text
user_data name pubkey =
    codes "#cloud-config\nhostname: "
    ++ name
    ++ codes
        "\nusers:\n  - name: tenant\n    sudo: ALL=(ALL) NOPASSWD:ALL\n    shell: /bin/bash\n    ssh_authorized_keys:\n      - "
    ++ pubkey
    ++ codes "\nssh_pwauth: false\npackage_update: false\n"

unfoldable pub meta_data : Text → Text
meta_data name = codes "instance-id: " ++ name ++ codes "\nlocal-hostname: " ++ name ++ codes "\n"
