-- ===== src/Libvirt/Setup/Started.antt =====
-- The runtime that from_env of cross-node-rental/src/workspace/libvirt_provider.rs starts.
use decentralized_cc_mesh_po.Base.{
  if◌then◌else◌, Bool-cases, Option-cases, Result, ok, err, Result-cases, ℕ, ◌≡◌, refl, inl, inr,
  Bool, List, [], ◌∷◌,
}
use decentralized_cc_mesh_po.Env.{Vars}
use decentralized_cc_mesh_po.Libvirt.Text.{Text, codes}
use decentralized_cc_mesh_po.Libvirt.Host.{
  Action, run, create_dir, History, Outside, Config, run_cmd_with_timeout,
}
use decentralized_cc_mesh_po.Libvirt.Runtime.{Runtime}
use decentralized_cc_mesh_po.Libvirt.Runtime.Accounting.{
  Request, after_all, Accounted, ports-Accounted,
}
use decentralized_cc_mesh_po.Libvirt.Setup.{
  is_skipped, config_of, required_tools, version_of, check_tools, create_dirs, preflight, from_env,
  after_preflight,
}

-- An action that touches no tenant: a tool is asked for its version, or a directory is made.
pub data Harmless : Action → Type 0 where
  asks : (tool : Text) (secs : ℕ) → Harmless (run tool (codes "--version" ∷ []) secs)
  makes : (d : Text) → Harmless (create_dir d)

-- A history that goes on from another by harmless actions.
pub data Onward (h : History) : History → Type 0 where
  same : Onward h h
  more : {h' : History} (a : Action) → Harmless a → Onward h h' → Onward h (a ∷ h')

module _ (o : Outside) (start : History) where
  version-Onward :
      (tool : Text) (h : History) → Onward start h → Onward start (version_of o tool h).0
  unfolding run_cmd_with_timeout
  version-Onward tool h w = more _ (asks tool _) w

  check_tools-Onward :
      (tools : List Text) (h : History) → Onward start h → Onward start (check_tools o tools h).0
  unfolding check_tools
  check_tools-Onward [] h w = w
  check_tools-Onward (tool ∷ tools) h w =
      let here = version-Onward tool h w in
      elim (Result-cases (version_of o tool h).1) [
        | inl (out, e) ↦ rw (e, check_tools) (check_tools-Onward tools _ here)
        | inr (out, e) ↦ rw (e, check_tools) here
      ]

  create_dirs-Onward :
      (ds : List Text) (h : History) → Onward start h → Onward start (create_dirs o ds h).0
  unfolding create_dirs
  create_dirs-Onward [] h w = w
  create_dirs-Onward (d ∷ ds) h w =
      let here : Onward start (create_dir d ∷ h) = more _ (makes d) w in
      elim (Result-cases (o.written (create_dir d ∷ h))) [
        | inl (_, e) ↦ rw (e, create_dirs) (create_dirs-Onward ds _ here)
        | inr (_, e) ↦ rw (e, create_dirs) here
      ]

  module _ (exists : Text → History → Bool) where
    preflight-Onward : (h : History) → Onward start h → Onward start (preflight o exists h).0
    unfolding preflight
    preflight-Onward h w =
        let asked = version-Onward (codes "virsh") h w in
        elim (Bool-cases (exists (codes "/dev/kvm") h)) [
          | inr e ↦ rw (e, preflight) w
          | inl e ↦ elim (Result-cases (version_of o (codes "virsh") h).1) [
            | inr (_, f) ↦ rw (e, f, preflight) asked
            | inl (out, f) ↦ elim (Bool-cases out.success) [
              | inr g ↦ rw (e, f, g, preflight) asked
              | inl g ↦ rw (e, f, g, preflight) (check_tools-Onward required_tools _ asked)
            ]
          ]
        ]

    after_preflight-Onward :
        (c : Config) (checked : History × Result Text (Unit {0}))
        → Onward start checked.0
        → Onward start (after_preflight o exists c checked).0
    unfolding after_preflight
    after_preflight-Onward c (h, err e) w = w
    after_preflight-Onward c (h, ok u) w = elim (Bool-cases (exists c.base_image_path h)) [
      | inr e ↦ rw e w
      | inl e ↦
          let dirs = c.overlay_dir ∷ c.seed_dir ∷ c.serial_log_dir ∷ [] in
          let made = create_dirs-Onward dirs h w in
          elim (Result-cases (create_dirs o dirs h).1) [
            | inl (_, f) ↦ rw (e, f) made
            | inr (_, f) ↦ rw (e, f) made
          ]
    ]

abbrev checked_in :
    Outside → (Text → History → Bool) → Vars → History → History × Result Text (Unit {0})
checked_in o exists vars h =
    if is_skipped (vars "LIBVIRT_SKIP_PREFLIGHT") then (h, ok tt) else preflight o exists h

checked-Onward :
    (o : Outside) (exists : Text → History → Bool) (vars : Vars) (h : History)
    → Onward h (checked_in o exists vars h).0
checked-Onward o exists vars h = elim (Bool-cases (is_skipped (vars "LIBVIRT_SKIP_PREFLIGHT"))) [
  | inl e ↦ rw e same
  | inr e ↦ rw e (preflight-Onward o h exists h same)
]

-- What a start comes to: an error, or a runtime with the history of the start, no tenant and no port,
-- which after some requests accounts for its ports.
abbrev pub Starts : Outside → List Request → History × Result Text Runtime → Type 0
Starts o qs (h, err e) = Unit {0}
Starts o qs (h, ok r) =
    (r.history ≡ h) × (r.tenants ≡ []) × (r.allocated_ports ≡ []) × Accounted (after_all o qs r)

after_preflight-Starts :
    (o : Outside) (exists : Text → History → Bool) (qs : List Request) (c : Config)
    (checked : History × Result Text (Unit {0}))
    → Starts o qs (after_preflight o exists c checked)
unfolding after_preflight
after_preflight-Starts o exists qs c (h, err e) = tt
after_preflight-Starts o exists qs c (h, ok u) = elim (Bool-cases (exists c.base_image_path h)) [
  | inr e ↦ rw e tt
  | inl e ↦
      let dirs = c.overlay_dir ∷ c.seed_dir ∷ c.serial_log_dir ∷ [] in
      elim (Result-cases (create_dirs o dirs h).1) [
        | inl (_, f) ↦ rw (e, f) (refl, refl, refl, ports-Accounted o c _ qs)
        | inr (_, f) ↦ rw (e, f) tt
      ]
]

-- Whatever the environment, the files and the host's answers, and also where it fails, the start only
-- asks tools for their versions and makes directories. If it succeeds, the runtime has the history of
-- the start, no tenant and no port, and after any creations, starts, stops and removals its allocated
-- ports are exactly those of the tracked tenants, in range and no two the same.
pub start_accounts :
    (o : Outside) (exists : Text → History → Bool) (vars : Vars) (h : History) (qs : List Request)
    → Onward h (from_env o exists vars h).0 × Starts o qs (from_env o exists vars h)
unfolding from_env
start_accounts o exists vars h qs = elim (Option-cases (vars "LIBVIRT_HOST_IPV6")) [
  | inl f ↦ rw (f, from_env) (same, tt)
  | inr (host_ipv6, f) ↦
      let c = config_of vars host_ipv6 in
      let checked = checked_in o exists vars h in
      rw (f, from_env)
        (
          after_preflight-Onward o h exists c checked (checked-Onward o exists vars h),
          after_preflight-Starts o exists qs c checked,
        )
]
