-- ===== src/Loader/Steps.antt =====
-- The thread of the loader as steps: what each command does and answers, and which are served.
use sarena.Prelude.{
  ◌≡◌, ◌≢◌, refl, ap, ◌∙◌, Bool, true, false, none, some, List, [], ◌∷◌, ◌++◌, All,
}
use sarena.Endpoint.Error.{DataPlaneError, Res, ok, err}
use sarena.Loader.{LoaderEndpoint}
use sarena.Loader.Backend.{BpfBackend}
use sarena.Loader.Calls.{
  Failure, global_map_pins, add_loader_endpoint, remove_loader_endpoint, list_loader_endpoints,
  reconcile,
}
use sarena.Loader.Actor.{
  Command, load_global_maps_command, add_command, remove_command, list_command, reconcile_command,
  teardown_command, shutdown_command, Reply, unit_reply, keys_reply, failures_reply, Loader,
  keep_globals, load_global_maps, teardown_all, dispatch, Served, after_command, serve,
}

module _ (B : BpfBackend) where
  -- No logging, and no global maps held.
  abbrev pub torn_down : Loader B → Loader B
  torn_down l = record l { backend = B.stop_all_logging l.backend; globals_holder = none }

  -- A command other than a Shutdown: the loader before it, its reply, and the loader after it.
  pub data Step : Command → Loader B → Reply → Loader B → Type 0 where
    globals_loaded :
        (l : Loader B) (s : B.Backend) (inst : B.Instance)
        → B.load_global_maps (global_map_pins B l.pin_root) l.backend ≡ (s, ok inst)
        → Step load_global_maps_command l
            (unit_reply (ok tt))
            (record l { backend = s; globals_holder = some inst })
    globals_refused :
        (l : Loader B) (s : B.Backend) (e : DataPlaneError)
        → B.load_global_maps (global_map_pins B l.pin_root) l.backend ≡ (s, err e)
        → Step load_global_maps_command l (unit_reply (err e)) (record l { backend = s })
    endpoint_added :
        (l : Loader B) (endpoint : LoaderEndpoint) (s : B.Backend) (answer : Res (Unit {0}))
        → add_loader_endpoint B l.pin_root endpoint l.backend ≡ (s, answer)
        → Step (add_command endpoint) l (unit_reply answer) (record l { backend = s })
    endpoint_removed :
        (l : Loader B) (endpoint : LoaderEndpoint) (s : B.Backend) (answer : Res (Unit {0}))
        → remove_loader_endpoint B l.pin_root endpoint l.backend ≡ (s, answer)
        → Step (remove_command endpoint) l (unit_reply answer) (record l { backend = s })
    endpoints_listed :
        (l : Loader B)
        → Step list_command l (keys_reply (list_loader_endpoints B l.pin_root l.backend)) l
    reconciled :
        (l : Loader B) (desired : List LoaderEndpoint) (s : B.Backend) (answer : Res (List Failure))
        → reconcile B l.pin_root desired l.backend ≡ (s, answer)
        → Step (reconcile_command desired) l (failures_reply answer) (record l { backend = s })
    all_torn_down : (l : Loader B) → Step teardown_command l (unit_reply (ok tt)) (torn_down l)

  -- Commands one after the other, each with one reply.
  pub data Steps : List Command → Loader B → List Reply → Loader B → Type 0 where
    no_step : {l : Loader B} → Steps [] l [] l
    a_step :
        {c : Command} {queue : List Command} {l l' l'' : Loader B} {reply : Reply}
        {replies : List Reply}
        → Step c l reply l'
        → Steps queue l' replies l''
        → Steps (c ∷ queue) l (reply ∷ replies) l''

  load_global_maps-Step :
      (l : Loader B)
      → Step load_global_maps_command l
          (unit_reply (load_global_maps B l).1)
          (load_global_maps B l).0
  unfolding load_global_maps
  load_global_maps-Step l =
      by_answer (B.load_global_maps (global_map_pins B l.pin_root) l.backend) refl
    where
      by_answer :
          (r : B.Backend × Res B.Instance)
          → B.load_global_maps (global_map_pins B l.pin_root) l.backend ≡ r
          → Step load_global_maps_command l
              (unit_reply (keep_globals B l r).1)
              (keep_globals B l r).0
      by_answer (s, ok inst) e = globals_loaded l s inst e
      by_answer (s, err f) e = globals_refused l s f e

  dispatch-Step :
      (c : Command) (l : Loader B)
      → c ≢ shutdown_command
      → Step c l (dispatch B c l).1 (dispatch B c l).0
  unfolding dispatch teardown_all
  dispatch-Step load_global_maps_command l h = load_global_maps-Step l
  dispatch-Step (add_command e) l h = endpoint_added l e _ _ refl
  dispatch-Step (remove_command e) l h = endpoint_removed l e _ _ refl
  dispatch-Step list_command l h = endpoints_listed l
  dispatch-Step (reconcile_command desired) l h = reconciled l desired _ _ refl
  dispatch-Step teardown_command l h = all_torn_down l
  dispatch-Step shutdown_command l h = absurd (h refl)

  dispatch-continues :
      (c : Command) (l : Loader B) → c ≢ shutdown_command → (dispatch B c l).2 ≡ false
  unfolding dispatch
  dispatch-continues load_global_maps_command l h = refl
  dispatch-continues (add_command e) l h = refl
  dispatch-continues (remove_command e) l h = refl
  dispatch-continues list_command l h = refl
  dispatch-continues (reconcile_command desired) l h = refl
  dispatch-continues teardown_command l h = refl
  dispatch-continues shutdown_command l h = absurd (h refl)

  after_command-continues :
      (queue : List Command) (rest : Served B) (r : Loader B × Reply × Bool)
      → r.2 ≡ false
      → after_command B queue rest r ≡ (rest.0, r.1 ∷ rest.1, rest.2, rest.3)
  after_command-continues queue rest (l, reply, true) h = absurd (cc h)
  after_command-continues queue rest (l, reply, false) h = refl

  -- For any backend and loader, and commands that are no Shutdown: the thread serves the commands
  -- before a Shutdown by their steps, in order, and sends the one reply of each; the Shutdown stops
  -- all logging, drops the global maps and is answered Ok; the thread ends, and the commands after
  -- it get no reply and change nothing.
  pub serve_shutdown :
      (before after : List Command) (l : Loader B)
      → All (λ c. c ≢ shutdown_command) before
      → (l' : Loader B) × (replies : List Reply) × Steps before l replies l'
        × (serve B (before ++ shutdown_command ∷ after) l
            ≡ (torn_down l', replies ++ unit_reply (ok tt) ∷ [], after, true))
  unfolding serve dispatch teardown_all
  serve_shutdown [] after l h = (l, [], no_step, refl)
  serve_shutdown (c ∷ before) after l h =
      let r = dispatch B c l in
      let (l', replies, steps, e) = serve_shutdown before after r.0 h.1 in
      (
        l',
        r.1 ∷ replies,
        a_step (dispatch-Step c l h.0) steps,
        after_command-continues (before ++ shutdown_command ∷ after)
              (serve B (before ++ shutdown_command ∷ after) r.0) r (dispatch-continues c l h.0)
            ∙ ap (λ (rest : Served B). (rest.0, r.1 ∷ rest.1, rest.2, rest.3)) e,
      )
