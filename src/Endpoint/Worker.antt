-- ===== src/Endpoint/Worker.antt =====
-- sarena-data-plane/src/endpoint/worker.rs and regenerate.rs: the task that owns an endpoint, handles
-- its commands one at a time and publishes its state. The files are those of Directory/Files; what
-- the loader answers to a regeneration is an argument. That the handle aborts a worker which does
-- not end within a timeout is not modelled.
pub mod Regenerate
pub mod Queue
mod Tests
use sarena.Prelude.{
  ℕ, zero, suc, ◌+◌, Bool, true, false, Option, none, some, List, [], ◌∷◌, ◌++◌, String,
  if◌then◌else◌,
}
use sarena.Endpoint.Error.{DataPlaneError, io, message, actor_gone, actor_cancelled, Res, ok, err}
use sarena.Endpoint.IdAllocator.{EndpointId}
use sarena.Endpoint.Persist.{EndpointPersist}
use sarena.Endpoint.Directory.{next, next_failed, directory_path}
use sarena.Endpoint.Directory.Files.{
  FileSystem, Environment, IoResult, done, not_found, failed, to_res, create_dir_all,
  set_permissions, then_call, write_state, remove_dir_if_exists, rename, synchronize_directories,
}

pub data EndpointPhase : Type 0 where
  created regenerating ready : EndpointPhase
  failed_with : String → EndpointPhase

pub record EndpointState : Type 0 where
  pub persist : EndpointPersist
  pub phase : EndpointPhase
  pub generation : ℕ

-- The state of `Endpoint::new`.
abbrev pub initial_state : EndpointPersist → EndpointState
initial_state persist = record { persist = persist; phase = created; generation = 0 }

-- The worker's own state, the snapshot in its watch channel, and the state directories.
pub record EndpointWorker : Type 0 where
  pub state : EndpointState
  pub snapshot : EndpointState
  pub files : FileSystem

unfoldable pub publish : EndpointWorker → EndpointWorker
publish w = record w { snapshot = w.state }

-- A command is a regeneration, with what the loader will answer to it.
pub data EndpointCommand : Type 0 where
  regenerate_command : Res (Unit {0}) → EndpointCommand

-- What the worker's `select!` finds at a turn, the stop first: it was told to stop, with the
-- commands that are then in the queue; all senders are gone; or a command.
pub data Turn : Type 0 where
  stop : List EndpointCommand → Turn
  senders_gone : Turn
  received : EndpointCommand → Turn

module _ (env : Environment) where
  -- The loader is asked when the state was written.
  abbrev pub after_write : Res (Unit {0}) → FileSystem × IoResult → FileSystem × Res (Unit {0})
  after_write loaded (fs, done) = (fs, loaded)
  after_write loaded (fs, not_found) = (fs, to_res not_found)
  after_write loaded (fs, failed e) = (fs, to_res (failed e))

  unfoldable pub regenerate_bpf :
      Res (Unit {0}) → EndpointState → FileSystem → FileSystem × Res (Unit {0})
  unfolding write_state
  regenerate_bpf loaded state fs =
      after_write loaded (write_state env state.persist (directory_path state.persist.id next) fs)

  -- The last removal, and the publication.
  abbrev pub conclude :
      EndpointState → EndpointWorker → FileSystem × IoResult → EndpointWorker × Res (Unit {0})
  conclude state w (fs, done) = (publish (record w { state = state; files = fs }), ok tt)
  conclude state w (fs, not_found) = (record w { state = state; files = fs }, to_res not_found)
  conclude state w (fs, failed e) = (record w { state = state; files = fs }, to_res (failed e))

  abbrev pub succeeded :
      EndpointWorker → FileSystem × Res (Unit {0}) → EndpointWorker × Res (Unit {0})
  succeeded w (fs, ok u) =
      conclude (record w.state { phase = ready; generation = w.state.generation + 1 }) w
        (remove_dir_if_exists env (directory_path w.state.persist.id next) fs)
  succeeded w (fs, err e) = (record w { files = fs }, err e)

  abbrev pub gave_up :
      EndpointState → EndpointWorker → FileSystem × IoResult → EndpointWorker × Res (Unit {0})
  gave_up state w (fs, done) =
      conclude state w (remove_dir_if_exists env (directory_path w.state.persist.id next) fs)
  gave_up state w (fs, not_found) = (record w { state = state; files = fs }, to_res not_found)
  gave_up state w (fs, failed e) = (record w { state = state; files = fs }, to_res (failed e))

  -- The match on the result of `regenerate_bpf`.
  abbrev pub settle_result :
      EndpointWorker → FileSystem × Res (Unit {0}) → EndpointWorker × Res (Unit {0})
  settle_result w (fs, ok u) = succeeded w (synchronize_directories env w.state.persist.id fs)
  settle_result w (fs, err e) =
      let id = w.state.persist.id in
      gave_up (record w.state { phase = failed_with (message e) }) w
        (then_call env (rename env (directory_path id next) (directory_path id next_failed))
          (remove_dir_if_exists env (directory_path id next_failed) fs))

  abbrev pub prepared :
      Res (Unit {0}) → EndpointWorker → FileSystem × IoResult → EndpointWorker × Res (Unit {0})
  prepared loaded w (fs, done) = settle_result w (regenerate_bpf loaded w.state fs)
  prepared loaded w (fs, not_found) = (record w { files = fs }, to_res not_found)
  prepared loaded w (fs, failed e) = (record w { files = fs }, to_res (failed e))

  -- An empty next directory.
  unfoldable pub make_next : EndpointId → FileSystem → FileSystem × IoResult
  unfolding create_dir_all remove_dir_if_exists
  make_next id fs = then_call env (set_permissions env (directory_path id next)) (
      then_call env (create_dir_all env (directory_path id next))
        (remove_dir_if_exists env (directory_path id next) fs))

  unfoldable pub regenerate : Res (Unit {0}) → EndpointWorker → EndpointWorker × Res (Unit {0})
  unfolding make_next regenerate_bpf publish synchronize_directories
  regenerate loaded w = prepared loaded w (make_next w.state.persist.id w.files)

  unfoldable pub handle : EndpointCommand → EndpointWorker → EndpointWorker × Res (Unit {0})
  unfolding regenerate
  handle (regenerate_command loaded) w = regenerate loaded w

  -- Commands in order, with their replies.
  unfoldable pub drain :
      List EndpointCommand → EndpointWorker → EndpointWorker × List (Res (Unit {0}))
  unfolding handle
  drain [] w = (w, [])
  drain (c ∷ queue) w =
      let (w', reply) = handle c w in let (w'', replies) = drain queue w' in (w'', reply ∷ replies)

  -- The loop, up to its end or to the last turn given; the replies, and whether it ended.
  unfoldable pub run : List Turn → EndpointWorker → EndpointWorker × List (Res (Unit {0})) × Bool
  unfolding handle drain
  run [] w = (w, [], false)
  run (stop queue ∷ turns) w = let (w', replies) = drain queue w in (w', replies, true)
  run (senders_gone ∷ turns) w = (w, [], true)
  run (received c ∷ turns) w =
      let (w', reply) = handle c w in
      let (w'', replies, ended) = run turns w' in (w'', reply ∷ replies, ended)
