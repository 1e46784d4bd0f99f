-- ===== src/Timer/Tests.antt =====
-- The timers of cross-node-rental/src/workspace/payment_timer.rs at concrete inputs.
use decentralized_cc_mesh_po.Base.{◌<◌, ◌≡◌, refl, true, List, [], ◌∷◌, arith}
use decentralized_cc_mesh_po.Timer.{first_bytes, panics, new, stop_timer, start_timer}
use decentralized_cc_mesh_po.Timer.Tasks.{
  is_tracked, Separate, Call, starts, stops, after, after_all, HasSound, is_running,
  running_iff_tracked,
}

abbrev some_calls : List Call
some_calls = starts "a" 60 ∷ starts "b" 60 ∷ starts "a" 60 ∷ stops "b" ∷ []

spawned_three : 1 < (after_all some_calls new).spawned
unfolding after_all after start_timer stop_timer new
spawned_three = omega arith

calls-HasSound : HasSound some_calls
unfolding HasSound panics first_bytes
calls-HasSound = (refl, (refl, (refl, tt)))

running_iff_tracked_example :
    (is_running 1 (after_all some_calls new) ≡ is_tracked 1 (after_all some_calls new).timers)
    × Separate (after_all some_calls new).spawned (after_all some_calls new).timers
running_iff_tracked_example = running_iff_tracked some_calls 1 calls-HasSound spawned_three

-- An interval of no seconds, and a name whose eighth byte stands inside a character.
no_interval : panics "a" 0 ≡ true
unfolding panics
no_interval = refl

inside_character : panics "session☃" 60 ≡ true
unfolding panics first_bytes
inside_character = refl
