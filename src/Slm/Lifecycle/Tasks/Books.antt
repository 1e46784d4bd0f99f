-- ===== src/Slm/Lifecycle/Tasks/Books.antt =====
-- The books of slm-edge-inference/src/lifecycle.rs among loads that take turns, over the mock provider.
use decentralized_cc_mesh_po.Slm.Lifecycle.Accounting.{IsBalanced}
use decentralized_cc_mesh_po.Slm.Lifecycle.{Manager}
use decentralized_cc_mesh_po.Slm.Lifecycle.Tasks.Within.{happen_all-IsWithin}
use decentralized_cc_mesh_po.Slm.Models.Estimate.{estimate_exact}
use decentralized_cc_mesh_po.Slm.Lifecycle.Tasks.Exclusion.{
  bit, Exclusive, happen-Exclusive, fresh-Exclusive,
}
use decentralized_cc_mesh_po.Base.{
  ◌==◌, Bool-cases, Option-cases, ℕ, ◌+◌, ◌^◌, ◌≤◌, ◌<◌, String, ◌≡◌, refl, inl, inr, true, false,
  none, some, List, [], ◌∷◌, map, arith,
}
use decentralized_cc_mesh_po.Slm.Models.{ModelInfo, estimated_ram_mb}
use decentralized_cc_mesh_po.Slm.Provider.{find_model}
use decentralized_cc_mesh_po.Slm.Mock.{MockProvider, loaded, generate, mock}
use decentralized_cc_mesh_po.Slm.Mock.Loaded.{
  total_mb, AreProper, find-loaded, find-size, has_model_of_find, total-set_loaded,
  set_loaded-AreProper,
}
use decentralized_cc_mesh_po.Slm.Memory.{reserve, release, reset}
use decentralized_cc_mesh_po.Slm.Lifecycle.Tasks.{
  Task, waiting, locked, missed, sized, holding, failing, wiping, relisting, recounting, loaded_as,
  unloading, seen, evicting, freeing, unloaded_as, gone, holds_permit, Shared, advance, System,
  runs, happen, happen_all,
}

abbrev models_in : Shared MockProvider → List ModelInfo
models_in s = s.provider.models

-- The estimates of the models that are loaded.
abbrev pub taken : Shared MockProvider → ℕ
taken s = total_mb (loaded (models_in s))

-- What a load knows of the books where it stands; no task is an unload.
abbrev Knows : Task → Shared MockProvider → Type 0
Knows (waiting model) s = Unit {0}
Knows (locked model) s = s.memory.used_mb ≡ taken s
Knows (missed model) s =
    (s.memory.used_mb ≡ taken s) × (find_model model (loaded (models_in s)) ≡ none)
Knows (sized model info) s =
    (s.memory.used_mb ≡ taken s)
    × (find_model model (models_in s) ≡ some info)
    × (info.is_loaded ≡ false)
Knows (holding model info) s =
    (s.memory.used_mb ≡ taken s + estimated_ram_mb info)
    × (find_model model (models_in s) ≡ some info)
    × (info.is_loaded ≡ false)
Knows (failing mb e) s = s.memory.used_mb ≡ taken s + mb
Knows (wiping e) s = s.memory.used_mb ≡ taken s
Knows (relisting e) s = s.memory.used_mb ≡ 0
Knows (recounting e infos) s = s.memory.used_mb + total_mb infos ≡ taken s
Knows (loaded_as r) s = Unit {0}
Knows _ s = ⊥

-- What holds at every moment.
pub record Sound (s : Shared MockProvider) : Type 0 where
  pub fits : taken s ≤ s.memory.limit_mb
  pub within : s.memory.used_mb ≤ s.memory.limit_mb
  pub small : s.memory.limit_mb < 2 ^ 63
  pub proper : AreProper (models_in s)
  pub settled : s.permit ≡ true → s.memory.used_mb ≡ taken s

-- A turn of a task that stands where the permit lets it.
advance-Sound :
    (t : Task) (s : Shared MockProvider)
    → bit s.permit + bit (holds_permit t) ≤ 1
    → Sound s
    → Knows t s
    → Sound (advance mock t s).1 × Knows (advance mock t s).0 (advance mock t s).1
unfolding advance reserve release reset generate
advance-Sound (waiting model) s h v k = ground (arith, v.settled)
advance-Sound (locked model) s h v k = ground arith
advance-Sound (missed model) s h v k = elim (Option-cases (find_model model (models_in s))) [
  | inl e ↦ ground arith
  | inr (info, e) ↦ ground (arith, find-loaded model (models_in s) info k.1 e)
]
advance-Sound (sized model info) s h v k =
    ground (arith, estimate_exact info, find-size model (models_in s) info v.proper k.1)
advance-Sound (holding model info) s h v k = ground (
  arith,
  total-set_loaded model (models_in s) info k.1 k.2,
  set_loaded-AreProper true model (models_in s) v.proper,
  has_model_of_find model (models_in s) info k.1,
)
advance-Sound (failing mb e) s h v k = ground arith
advance-Sound (wiping e) s h v k = ground arith
advance-Sound (relisting e) s h v k = ground arith
advance-Sound (recounting e []) s h v k = ground arith
advance-Sound (recounting e (info ∷ infos)) s h v k = ground arith
advance-Sound (loaded_as r) s h v k = ground (arith, v.settled)
advance-Sound _ s h v k = absurd k

-- A task that does not hold the permit knows the same of any state.
Knows-elsewhere :
    (t : Task) (s s' : Shared MockProvider) → holds_permit t ≡ false → Knows t s → Knows t s'
Knows-elsewhere (waiting model) s s' h k = tt
Knows-elsewhere (loaded_as r) s s' h k = tt
Knows-elsewhere (unloading model) s s' h k = absurd k
Knows-elsewhere (seen model) s s' h k = absurd k
Knows-elsewhere (evicting model mb) s s' h k = absurd k
Knows-elsewhere (freeing mb) s s' h k = absurd k
Knows-elsewhere (unloaded_as r) s s' h k = absurd k
Knows-elsewhere gone s s' h k = absurd k
Knows-elsewhere _ s s' h k = cc

-- A load that neither has the permit nor finds it changes nothing.
idle_turn :
    (t : Task) (s : Shared MockProvider)
    → holds_permit t ≡ false
    → s.permit ≡ false
    → Knows t s
    → (advance mock t s).1 ≡ s
unfolding advance
idle_turn (waiting model) s h f k = rw f refl
idle_turn (loaded_as r) s h f k = refl
idle_turn (unloading model) s h f k = absurd k
idle_turn (seen model) s h f k = absurd k
idle_turn (evicting model mb) s h f k = absurd k
idle_turn (freeing mb) s h f k = absurd k
idle_turn (unloaded_as r) s h f k = absurd k
idle_turn gone s h f k = absurd k
idle_turn _ s h f k = cc

pub record KeepsBooks (s : System MockProvider) : Type 0 where
  pub sound : Sound s.shared
  pub knows : (i : ℕ) → Knows (s.tasks i) s.shared
  pub exclusive : Exclusive s.shared.permit s.tasks

-- What another task knows outlives a turn.
others_know :
    (i j : ℕ) (s : System MockProvider)
    → KeepsBooks s
    → (j == i) ≡ false
    → Knows (s.tasks j) (advance mock (s.tasks i) s.shared).1
others_know i j s b n = elim (Bool-cases (holds_permit (s.tasks j))) [
  | inr f ↦ Knows-elsewhere (s.tasks j) s.shared _ f (b.knows j)
  | inl h ↦
      let idle : holds_permit (s.tasks i) ≡ false =
        ground (arith, b.exclusive.kept i, b.exclusive.kept j, b.exclusive.lone i j) in
      let free : s.shared.permit ≡ false = ground (arith, b.exclusive.kept j) in
      rw (idle_turn (s.tasks i) s.shared idle free (b.knows i)) (b.knows j)
]

happen-KeepsBooks :
    (i : ℕ) (s : System MockProvider) → KeepsBooks s → KeepsBooks (happen mock (runs i) s)
unfolding happen
happen-KeepsBooks i s b =
    let (sound, known) =
      advance-Sound (s.tasks i) s.shared (b.exclusive.kept i) b.sound (b.knows i) in
    record {
      sound = sound;
      knows = λ j. elim (Bool-cases (j == i)) [
        | inl e ↦ rw e known
        | inr n ↦ rw n (others_know i j s b n)
      ];
      exclusive = happen-Exclusive mock (runs i) s b.exclusive;
    }

happen_all-KeepsBooks :
    (turns : List ℕ) (s : System MockProvider)
    → KeepsBooks s
    → KeepsBooks (happen_all mock (map runs turns) s)
unfolding happen_all
happen_all-KeepsBooks [] s b = b
happen_all-KeepsBooks (i ∷ turns) s b =
    happen_all-KeepsBooks turns (happen mock (runs i) s) (happen-KeepsBooks i s b)

-- A manager of which every task is a load that has not begun.
abbrev pub all_load : (ℕ → String) → Manager MockProvider → System MockProvider
all_load models s = record {
  shared = record { provider = s.provider; memory = s.memory; permit = true };
  tasks = λ i. waiting (models i);
}

all_load-KeepsBooks :
    (models : ℕ → String) (s : Manager MockProvider) → IsBalanced s → KeepsBooks (all_load models s)
all_load-KeepsBooks models s v = record {
  sound = ground (arith, v.accounted, v.within, v.small, v.proper);
  knows = λ i. tt;
  exclusive = fresh-Exclusive true (λ i. waiting (models i)) (λ i. refl);
}

abbrev pub managed : Manager MockProvider → System MockProvider → Manager MockProvider
managed s u = record s { provider = u.shared.provider; memory = u.shared.memory }

-- Over the mock with balanced books, however any number of loads take turns, failed ones and those
-- of one model included, the books are balanced again at every moment when the permit is free.
pub loads_keep_books :
    (turns : List ℕ) (models : ℕ → String) (s : Manager MockProvider)
    → IsBalanced s
    → (happen_all mock (map runs turns) (all_load models s)).shared.permit ≡ true
    → IsBalanced (managed s (happen_all mock (map runs turns) (all_load models s)))
loads_keep_books turns models s v free =
    let b = happen_all-KeepsBooks turns (all_load models s) (all_load-KeepsBooks models s v) in
    record {
      accounted = b.sound.settled free;
      within = b.sound.within;
      small = b.sound.small;
      proper = b.sound.proper;
    }

-- Over the mock with balanced books, however any number of loads take turns, the loaded models fit
-- in the limit at every moment.
pub loads_fit :
    (turns : List ℕ) (models : ℕ → String) (s : Manager MockProvider)
    → IsBalanced s
    → taken (happen_all mock (map runs turns) (all_load models s)).shared ≤ s.memory.limit_mb
loads_fit turns models s v =
    let start = all_load models s in
    let b = happen_all-KeepsBooks turns start (all_load-KeepsBooks models s v) in
    let (same_limit, within) =
      happen_all-IsWithin mock s.memory.limit_mb (map runs turns) start (refl, v.within) in
    omega (arith, b.sound.fits, same_limit)
