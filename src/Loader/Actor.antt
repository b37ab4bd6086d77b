-- ===== src/Loader/Actor.antt =====
-- sarena-data-plane/src/loader/actor.rs: the thread that owns the loader and handles its commands in
-- the order received; and the loader's own state, of data_plane_loader.rs.
use sarena.Prelude.{Bool, true, false, Option, none, some, List, [], ◌∷◌}
use sarena.Endpoint.Error.{Res, ok, err}
use sarena.Loader.{LoaderEndpoint, PinPath}
use sarena.Loader.Backend.{BpfBackend, Method}
use sarena.Loader.Calls.{
  Key, Failure, global_map_pins, add_loader_endpoint, remove_loader_endpoint, list_loader_endpoints,
  reconcile,
}

pub data Command : Type 0 where
  load_global_maps_command : Command
  add_command remove_command : LoaderEndpoint → Command
  list_command : Command
  reconcile_command : List LoaderEndpoint → Command
  teardown_command shutdown_command : Command

-- What is sent to the caller of a command.
pub data Reply : Type 0 where
  unit_reply : Res (Unit {0}) → Reply
  keys_reply : Res (List Key) → Reply
  failures_reply : Res (List Failure) → Reply

module _ (B : BpfBackend) where
  pub record Loader : Type 0 where
    pub backend : B.Backend
    pub pin_root : PinPath
    pub globals_holder : Option B.Instance

  abbrev pub new_loader : B.Backend → PinPath → Loader
  new_loader backend pin_root = record {
    backend = backend;
    pin_root = pin_root;
    globals_holder = none;
  }

  abbrev pub keep_globals : Loader → B.Backend × Res B.Instance → Loader × Res (Unit {0})
  keep_globals l (s, ok inst) = (record l { backend = s; globals_holder = some inst }, ok tt)
  keep_globals l (s, err e) = (record l { backend = s }, err e)

  unfoldable pub load_global_maps : Loader → Loader × Res (Unit {0})
  load_global_maps l = keep_globals l (B.load_global_maps (global_map_pins B l.pin_root) l.backend)

  -- The instance that is dropped with the globals is not closed explicitly.
  unfoldable pub teardown_all : Loader → Loader × Res (Unit {0})
  teardown_all l =
      (record l { backend = B.stop_all_logging l.backend; globals_holder = none }, ok tt)

  abbrev pub on_backend :
      {A : Type 0} → (Res A → Reply) → Method B.Backend A → Loader → Loader × Reply
  on_backend reply m l = let (s, answer) = m l.backend in (record l { backend = s }, reply answer)

  abbrev pub replied : Loader × Res (Unit {0}) → Loader × Reply
  replied r = (r.0, unit_reply r.1)

  -- The loader, the reply, and whether the thread ends.
  unfoldable pub dispatch : Command → Loader → Loader × Reply × Bool
  unfolding load_global_maps teardown_all
  dispatch load_global_maps_command l =
      let (l', reply) = replied (load_global_maps l) in (l', reply, false)
  dispatch (add_command e) l =
      let (l', reply) = on_backend unit_reply (add_loader_endpoint B l.pin_root e) l in
      (l', reply, false)
  dispatch (remove_command e) l =
      let (l', reply) = on_backend unit_reply (remove_loader_endpoint B l.pin_root e) l in
      (l', reply, false)
  dispatch list_command l = (l, keys_reply (list_loader_endpoints B l.pin_root l.backend), false)
  dispatch (reconcile_command desired) l =
      let (l', reply) = on_backend failures_reply (reconcile B l.pin_root desired) l in
      (l', reply, false)
  dispatch teardown_command l = let (l', reply) = replied (teardown_all l) in (l', reply, false)
  dispatch shutdown_command l = let (l', reply) = replied (teardown_all l) in (l', reply, true)

  abbrev pub Served : Type 0
  Served = Loader × List Reply × List Command × Bool

  -- After a command: the end of the thread, or the rest of the queue.
  abbrev pub after_command : List Command → Served → Loader × Reply × Bool → Served
  after_command queue rest (l, reply, true) = (l, reply ∷ [], queue, true)
  after_command queue (l, replies, left, ended) (l', reply, false) =
      (l, reply ∷ replies, left, ended)

  -- The commands of the channel in order: the loader, the replies, the commands that get none
  -- because the thread has ended, and whether it has.
  unfoldable pub serve : List Command → Loader → Served
  unfolding dispatch
  serve [] l = (l, [], [], false)
  serve (c ∷ queue) l =
      let r = dispatch c l in let rest = serve queue r.0 in after_command queue rest r
