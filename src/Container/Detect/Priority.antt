-- ===== src/Container/Detect/Priority.antt =====
-- Which runtime cross-node-rental/src/workspace/container.rs chooses.
use decentralized_cc_mesh_po.Base.{
  if◌then◌else◌, Result, ok, err, ℕ, suc, ◌≡◌, Bool, true, false, ◌&&◌, Option, none, some, List,
  [], ◌∷◌, arith,
}
use decentralized_cc_mesh_po.Container.Docker.{new_docker}
use decentralized_cc_mesh_po.Container.Detect.{
  Chosen, chose_libvirt, chose_gcp, chose_docker, chose_noop, chose_pty, Surroundings,
  libvirt_asked, is_set, detect_runtime,
}

is_made : {E A : Type 0} → Result E A → Bool
is_made (ok a) = true
is_made (err e) = false

is_there : {A : Type 0} → Option A → Bool
is_there none = false
is_there (some a) = true

module _ {L G P : Type 0} where
  -- Which of the four runtimes could serve, in the order of preference.
  pub ready : Surroundings L G P → List Bool
  ready s =
      (libvirt_asked s.workspace_runtime && is_made s.libvirt_from_env)
      ∷ (is_set s.gcp_project_id && is_made s.gcp_from_env)
      ∷ new_docker s.docker_version
      ∷ is_there s.pty_manager
      ∷ []

  pub rank : Chosen L G P → ℕ
  rank (chose_libvirt l) = 0
  rank (chose_gcp g) = 1
  rank chose_docker = 2
  rank (chose_pty p) = 3
  rank chose_noop = 4

-- The position of the first true, or the length.
pub first_true : List Bool → ℕ
first_true [] = 0
first_true (b ∷ bs) = if b then 0 else suc (first_true bs)

module _ {L G P : Type 0} where
  -- The chosen runtime is the first one that could serve, in the order libvirt, Google's machines,
  -- Docker, the terminal; the runtime that refuses everything is chosen only if none of them could.
  pub detect-first_true : (s : Surroundings L G P) → rank (detect_runtime s) ≡ first_true (ready s)
  unfolding detect_runtime ready rank first_true is_made is_there
  detect-first_true s = ground arith
