-- ===== src/Slm/Mock/Loaded.antt =====
-- The models of slm-edge-inference/src/providers/mock.rs: which are loaded, and how much memory
-- they take by the estimate of models.rs.
use decentralized_cc_mesh_po.Base.{
  u64_mod, ℕ, ◌+◌, ◌<◌, String, ◌≡◌, refl, Bool, true, false, ◌||◌, none, some, List, [], ◌∷◌, ◌++◌,
  arith, str_eq, eq_iff,
}
use decentralized_cc_mesh_po.Slm.Models.{ModelInfo, estimated_ram_mb}
use decentralized_cc_mesh_po.Slm.Provider.{find_model, has_model}
use decentralized_cc_mesh_po.Slm.Lifecycle.{listed_mb}
use decentralized_cc_mesh_po.Slm.Mock.{loaded, set_loaded, remove_model}

abbrev pub total_mb : List ModelInfo → ℕ
total_mb [] = 0
total_mb (m ∷ ms) = estimated_ram_mb m + total_mb ms

-- No two models share a name, and every size has 64 bits.
abbrev pub AreProper : List ModelInfo → Type 0
AreProper [] = Unit {0}
AreProper (m ∷ ms) = (has_model m.name ms ≡ false) × (m.size_bytes < u64_mod) × AreProper ms

pub find-loaded :
    (name : String) (ms : List ModelInfo) (info : ModelInfo)
    → find_model name (loaded ms) ≡ none
    → find_model name ms ≡ some info
    → info.is_loaded ≡ false
find-loaded name [] info e f = cc
find-loaded name (m ∷ ms) info e f = ground (arith, find-loaded name ms info)

pub find-size :
    (name : String) (ms : List ModelInfo) (info : ModelInfo)
    → AreProper ms
    → find_model name ms ≡ some info
    → info.size_bytes < u64_mod
find-size name [] info w f = cc
find-size name (m ∷ ms) info w f = ground (arith, find-size name ms info w.2)

pub has_model_of_find :
    (name : String) (ms : List ModelInfo) (info : ModelInfo)
    → find_model name ms ≡ some info
    → has_model name ms ≡ true
has_model_of_find name [] info f = cc
has_model_of_find name (m ∷ ms) info f = ground (arith, has_model_of_find name ms info)

-- Loading a model that is not loaded adds its estimate.
pub total-set_loaded :
    (name : String) (ms : List ModelInfo) (info : ModelInfo)
    → find_model name ms ≡ some info
    → info.is_loaded ≡ false
    → total_mb (loaded (set_loaded true name ms)) ≡ total_mb (loaded ms) + estimated_ram_mb info
unfolding set_loaded estimated_ram_mb
total-set_loaded name [] info f l = cc
total-set_loaded name (m ∷ ms) info f l = ground (arith, total-set_loaded name ms info)

not_loaded :
    (name : String) (ms : List ModelInfo)
    → has_model name ms ≡ false
    → has_model name (loaded ms) ≡ false
not_loaded name [] e = refl
not_loaded name (m ∷ ms) e = ground (arith, not_loaded name ms)

-- Unloading a loaded model frees its estimate, where names are unique.
pub total-set_unloaded :
    (name : String) (ms : List ModelInfo)
    → AreProper ms
    → has_model name (loaded ms) ≡ true
    → total_mb (loaded (set_loaded false name ms)) + listed_mb name ms ≡ total_mb (loaded ms)
unfolding set_loaded estimated_ram_mb
total-set_unloaded name [] w e = cc
total-set_unloaded name (m ∷ ms) w e = ground (
  arith,
  total-set_unloaded name ms w.2,
  not_loaded name ms,
  not_loaded m.name ms,
  eq_iff m.name name,
)

-- Whether a model is loaded has no part in the other facts.
pub has_model-set_loaded :
    (b : Bool) (name other : String) (ms : List ModelInfo)
    → has_model other (set_loaded b name ms) ≡ has_model other ms
unfolding set_loaded
has_model-set_loaded b name other [] = refl
has_model-set_loaded b name other (m ∷ ms) = ground (arith, has_model-set_loaded b name other ms)

pub set_loaded-AreProper :
    (b : Bool) (name : String) (ms : List ModelInfo)
    → AreProper ms
    → AreProper (set_loaded b name ms)
unfolding set_loaded
set_loaded-AreProper b name [] w = tt
set_loaded-AreProper b name (m ∷ ms) w =
    ground (arith, set_loaded-AreProper b name ms w.2, has_model-set_loaded b name m.name ms)

has_model-remove :
    (name other : String) (ms : List ModelInfo)
    → has_model other ms ≡ false
    → has_model other (remove_model name ms) ≡ false
unfolding remove_model
has_model-remove name other [] e = refl
has_model-remove name other (m ∷ ms) e = ground (arith, has_model-remove name other ms)

pub remove-AreProper :
    (name : String) (ms : List ModelInfo) → AreProper ms → AreProper (remove_model name ms)
unfolding remove_model
remove-AreProper name [] w = tt
remove-AreProper name (m ∷ ms) w =
    ground (arith, remove-AreProper name ms w.2, has_model-remove name m.name ms)

-- Removing a model that is not loaded changes no loaded model.
pub loaded-remove :
    (name : String) (ms : List ModelInfo)
    → has_model name (loaded ms) ≡ false
    → loaded (remove_model name ms) ≡ loaded ms
unfolding remove_model
loaded-remove name [] e = refl
loaded-remove name (m ∷ ms) e = ground (arith, loaded-remove name ms)

pub unloaded_after :
    (name : String) (ms : List ModelInfo)
    → AreProper ms
    → has_model name (loaded (set_loaded false name ms)) ≡ false
unfolding set_loaded
unloaded_after name [] w = refl
unloaded_after name (m ∷ ms) w = ground (
  arith,
  unloaded_after name ms w.2,
  not_loaded name ms,
  not_loaded m.name ms,
  eq_iff m.name name,
)

pub loaded-append_unloaded :
    (m : ModelInfo) (ms : List ModelInfo) → m.is_loaded ≡ false → loaded (ms ++ m ∷ []) ≡ loaded ms
loaded-append_unloaded m [] e = ground arith
loaded-append_unloaded m (k ∷ ms) e = ground (arith, loaded-append_unloaded m ms)

pub has_model-append :
    (name : String) (ms : List ModelInfo) (m : ModelInfo)
    → has_model name (ms ++ m ∷ []) ≡ (has_model name ms || str_eq m.name name)
has_model-append name [] m = ground arith
has_model-append name (k ∷ ms) m = ground (arith, has_model-append name ms m)

pub append-AreProper :
    (m : ModelInfo) (ms : List ModelInfo)
    → m.size_bytes < u64_mod
    → has_model m.name ms ≡ false
    → AreProper ms
    → AreProper (ms ++ m ∷ [])
append-AreProper m [] z e w = (refl, z, tt)
append-AreProper m (k ∷ ms) z e w = ground (
  arith,
  append-AreProper m ms z,
  has_model-append k.name ms m,
  eq_iff k.name m.name,
  eq_iff m.name k.name,
)
