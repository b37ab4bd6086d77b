-- ===== src/Endpoint/Worker/Queue.antt =====
-- What becomes of the commands of a worker that is told to stop.
use sarena.Prelude.{◌≡◌, refl, true, List, [], ◌∷◌, ◌++◌, map}
use sarena.Endpoint.Error.{Res}
use sarena.Endpoint.Directory.Files.{Environment}
use sarena.Endpoint.Worker.{
  EndpointWorker, EndpointCommand, regenerate_command, Turn, stop, received, regenerate, handle,
  drain, run,
}

module _ (env : Environment) where
  -- Commands one after the other: each is a regeneration of the worker that the one before it left,
  -- and its answer is the reply.
  pub data Handled
      : List EndpointCommand
        → EndpointWorker
        → List (Res (Unit {0}))
        → EndpointWorker
        → Type 0 where
    no_command : {w : EndpointWorker} → Handled [] w [] w
    command_handled :
        {w w' w'' : EndpointWorker} {loaded answer : Res (Unit {0})} {queue : List EndpointCommand}
        {replies : List (Res (Unit {0}))}
        → regenerate env loaded w ≡ (w', answer)
        → Handled queue w' replies w''
        → Handled (regenerate_command loaded ∷ queue) w (answer ∷ replies) w''

  drain-Handled :
      (queue : List EndpointCommand) (w : EndpointWorker)
      → Handled queue w (drain env queue w).1 (drain env queue w).0
  unfolding drain handle
  drain-Handled [] w = no_command
  drain-Handled (regenerate_command loaded ∷ queue) w =
      command_handled refl (drain-Handled queue (regenerate env loaded w).0)

  -- A worker that is told to stop, and that its handle does not abort at a timeout, ends, and not
  -- before every command was handled: those that it had received and then those in its queue are
  -- regenerated in order, each on the worker that the one before it left, and each has the answer of
  -- its regeneration as its one reply; what would come after the stop is not handled.
  pub run_stopped :
      (commands queue : List EndpointCommand) (later : List Turn) (w : EndpointWorker)
      → Handled
          (commands ++ queue)
          w
          (run env (map received commands ++ stop queue ∷ later) w).1
          (run env (map received commands ++ stop queue ∷ later) w).0
        × ((run env (map received commands ++ stop queue ∷ later) w).2 ≡ true)
  unfolding run handle
  run_stopped [] queue later w = (drain-Handled queue w, refl)
  run_stopped (regenerate_command loaded ∷ commands) queue later w =
      let (rest, ended) = run_stopped commands queue later (regenerate env loaded w).0 in
      (command_handled refl rest, ended)
