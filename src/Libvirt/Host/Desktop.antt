-- ===== src/Libvirt/Host/Desktop.antt =====
-- `read_vnc_ws_port` of cross-node-rental/src/workspace/libvirt_provider.rs: the port of a tenant's
-- desktop, from the description of its domain.
use decentralized_cc_mesh_po.Base.{
  ◌==◌, if◌then◌else◌, ok, err, ℕ, ◌||◌, Option, none, some, List, [], ◌∷◌,
}
use decentralized_cc_mesh_po.Libvirt.Text.{
  Text, codes, any, contains, take_until, lines, after_pattern, parse_u16,
}
use decentralized_cc_mesh_po.Libvirt.Host.{History, Outside, virsh}

-- The port between quotes after `websocket=`, for one kind of quote.
quoted_port : Text → ℕ → Text → Option ℕ
quoted_port pattern quote line = elim (after_pattern pattern line) [
  | none ↦ none
  | some rest ↦
      if any (λ c. c == quote) rest then parse_u16 (take_until (λ c. c == quote) rest) else none
]

ws_port_in : List Text → Option ℕ
unfolding quoted_port
ws_port_in [] = none
ws_port_in (line ∷ rest) =
    let later = ws_port_in rest in
    if contains line (codes "type='vnc'") || contains line (codes "type=\"vnc\"")
    then elim (quoted_port (codes "websocket='") 39 line) [
      | some port ↦ some port
      | none ↦ elim (quoted_port (codes "websocket=\"") 34 line) [
        | some port ↦ some port
        | none ↦ later
      ]
    ]
    else later

pub read_vnc_ws_port : Outside → Text → History → History × Option ℕ
unfolding ws_port_in
read_vnc_ws_port o container_id h =
    let (h', out) =
      virsh o (codes "dumpxml" ∷ container_id ∷ []) (codes "virsh dumpxml (vnc port)") h in
    elim out [
      | err e ↦ (h', none)
      | ok out ↦ (h', if out.success then ws_port_in (lines out.stdout) else none)
    ]
