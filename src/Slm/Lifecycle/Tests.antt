-- ===== src/Slm/Lifecycle/Tests.antt =====
-- The memory budget and the manager of slm-edge-inference/src at concrete inputs.
use decentralized_cc_mesh_po.Base.{
  ok, ℕ, ◌+◌, ◌*◌, ◌≤◌, ◌<◌, ◌≡◌, refl, ◌≢◌, true, none, List, [], ◌∷◌, arith,
}
use decentralized_cc_mesh_po.Slm.Models.{ModelInfo, estimated_ram_mb}
use decentralized_cc_mesh_po.Slm.Mock.{MockProvider, mock_model, set_loaded, mock}
use decentralized_cc_mesh_po.Slm.Memory.{Memory, reserve}
use decentralized_cc_mesh_po.Slm.Memory.Race.Progress.{retries, lock_free}
use decentralized_cc_mesh_po.Slm.Memory.Race.{
  reserves, Thread, starting, has_read, returned, System, set_thread, load, swap, retry, Steps,
  here, next, reserved, given_back, no_over_commit,
}
use decentralized_cc_mesh_po.Slm.Lifecycle.{Manager, ready, dropped, load_model}
use decentralized_cc_mesh_po.Slm.Lifecycle.Accounting.{models_of, IsBalanced, books_balance}
use decentralized_cc_mesh_po.Slm.Lifecycle.Bounds.{
  Request, loads, deletes, swaps, syncs, after_all, budget_never_exceeded,
}
use decentralized_cc_mesh_po.Slm.Lifecycle.Cuts.{load_finishes, load_fits}

-- A model of 300 MB, of which 375 MB are reserved.
abbrev small_model : ModelInfo
small_model = mock_model "small"

-- One of 8000 MB.
abbrev big_model : ModelInfo
big_model = record (mock_model "big") { size_bytes = 8000 * 1048576 }

abbrev idle : Manager MockProvider
idle = record {
  provider = record {
    available = true;
    models = small_model ∷ big_model ∷ [];
    response_text = "text";
  };
  memory = record { limit_mb = 4096; used_mb = 0 };
  swap_timeout_secs = 30;
}

idle-IsBalanced : IsBalanced idle
idle-IsBalanced = ground arith

abbrev budgeted : Memory
budgeted = record { limit_mb = 4096; used_mb = 100 }

granted : (reserve 400 budgeted).1 ≡ true
unfolding reserve
granted = refl

abbrev threads_before : ℕ → Thread
threads_before i = starting (reserves 400)

-- Two threads that both read 100; the first one commits.
abbrev race_start : System
race_start = record { limit_mb = 4096; used_mb = 100; threads = threads_before; committed = [] }

abbrev race_first : System
race_first = record race_start {
  threads = set_thread race_start.threads 0 (has_read (reserves 400) 100);
}

abbrev race_both : System
race_both = record race_first {
  threads = set_thread race_first.threads 1 (has_read (reserves 400) 100);
}

abbrev race_end : System
race_end = record {
  limit_mb = 4096;
  used_mb = 500;
  threads = set_thread race_both.threads 0 (returned (reserves 400) true);
  committed = reserves 400 ∷ [];
}

abbrev race-Steps : Steps race_start race_end
race-Steps =
    next (next (next here (load 0 (reserves 400) refl refl)) (load 1 (reserves 400) refl refl))
      (swap 0 (reserves 400) 100 500 refl refl refl refl)

no_over_commit_example :
    (500 ≤ 4096) × (100 + reserved (reserves 400 ∷ []) ≤ 500 + given_back (reserves 400 ∷ []))
no_over_commit_example =
    no_over_commit {s = race_start} {u = race_end} refl (omega arith) (omega arith) race-Steps
      (omega arith, tt)

-- The second thread finds the counter changed, and starts over.
abbrev race_again : System
race_again = record race_end { threads = set_thread race_end.threads 1 (starting (reserves 400)) }

changed : race_end.used_mb ≢ 100
changed = omega arith

abbrev again-Steps : Steps race_start race_again
again-Steps = next race-Steps (retry 1 (reserves 400) 100 500 refl refl changed refl)

lock_free_example : retries 1 again-Steps ≤ 1
lock_free_example = lock_free 1 (reserves 400) again-Steps refl refl

one_retry : retries 1 again-Steps ≡ 1
unfolding retries
one_retry = refl

abbrev a_day : List (Request MockProvider)
a_day = loads "small" ∷ swaps none "small" "big" ∷ deletes "small" ∷ syncs ∷ []

budget_never_exceeded_example : (after_all mock a_day idle).memory.used_mb ≤ 4096
budget_never_exceeded_example = budget_never_exceeded mock a_day idle (omega arith)

books_balance_example : IsBalanced (after_all mock a_day idle)
books_balance_example = books_balance a_day idle tt idle-IsBalanced

-- The manager after a leak: 375 MB are reserved and no model is loaded.
abbrev leaked : Manager MockProvider
leaked = record idle { memory = record { limit_mb = 4096; used_mb = 375 } }

load_finishes_example : (load_model mock "small" idle).1 ≢ dropped
load_finishes_example = load_finishes mock "small" idle

small_fits : 0 + estimated_ram_mb small_model ≤ 4096
unfolding estimated_ram_mb
small_fits = omega arith

big_does_not : 4096 < 0 + estimated_ram_mb big_model
unfolding estimated_ram_mb
big_does_not = omega arith

load_fits_example : load_model mock "small" idle ≡ (
  record idle {
    provider = record idle.provider { models = set_loaded true "small" (models_of idle) };
    memory = record idle.memory { used_mb = 0 + estimated_ram_mb small_model };
  },
  ready (ok (record small_model { is_loaded = true })),
)
load_fits_example = load_fits "small" idle small_model refl refl idle-IsBalanced refl small_fits
