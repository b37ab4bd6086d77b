-- ===== src/Endpoint/Worker/Tests.antt =====
-- Runs of a worker, and instances of the theorems.
use sarena.Prelude.{◌≡◌, refl, true, [], ◌∷◌, ◌++◌, map}
use sarena.Prelude.Map.{get, insert, remove}
use sarena.Endpoint.Error.{ok, err, io}
use sarena.Endpoint.Directory.{id_text, same_bytes, directory_path}
use sarena.Endpoint.Directory.Samples.{marked, calm_env, two_states}
use sarena.Endpoint.Worker.{
  EndpointWorker, EndpointCommand, regenerate_command, initial_state, ready, stop, received,
  regenerate, run,
}
use sarena.Endpoint.Worker.Regenerate.{Regenerated, regenerate-Regenerated}
use sarena.Endpoint.Worker.Queue.{Handled, run_stopped}

abbrev fresh : EndpointWorker
fresh = record {
  state = initial_state (marked 3);
  snapshot = initial_state (marked 3);
  files = two_states;
}

abbrev accepted : EndpointCommand
accepted = regenerate_command (ok tt)

abbrev refused : EndpointCommand
refused = regenerate_command (err (io "no such link"))

becomes_ready : (regenerate calm_env (ok tt) fresh).0.snapshot.phase ≡ ready
unfolding regenerate get insert remove directory_path id_text same_bytes
becomes_ready = refl

-- The caller is not told that the loader refused.
answers_ok : (regenerate calm_env (err (io "no such link")) fresh).1 ≡ ok tt
unfolding regenerate get insert remove directory_path id_text same_bytes
answers_ok = refl

regenerate-Regenerated_example : Regenerated fresh (regenerate calm_env (ok tt) fresh)
regenerate-Regenerated_example = regenerate-Regenerated calm_env fresh (ok tt)

run_stopped_example :
    Handled calm_env
      (accepted ∷ refused ∷ [])
      fresh
      (run calm_env (map received (accepted ∷ []) ++ stop (refused ∷ []) ∷ []) fresh).1
      (run calm_env (map received (accepted ∷ []) ++ stop (refused ∷ []) ∷ []) fresh).0
    × ((run calm_env (map received (accepted ∷ []) ++ stop (refused ∷ []) ∷ []) fresh).2 ≡ true)
run_stopped_example = run_stopped calm_env (accepted ∷ []) (refused ∷ []) [] fresh
