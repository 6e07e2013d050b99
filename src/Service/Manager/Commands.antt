-- ===== src/Service/Manager/Commands.antt =====
-- What the commands that replace the engine leave behind.
use evernode_se.Common.{◌≡◌, refl, String, Bool, true, false, Option}
use evernode_se.Common.Result.{NodeResult, ok, err, panic}
use evernode_se.Common.Exec.{Exec, continue, ◌>>◌}
use evernode_se.Service.Manager.{
  TonNodeServiceConfig, Outside, TonNodeEngineManager, create_engine, start, stop, clear_outside,
  clear_db, clear_if, replace_and_start, reset, fork, unfork, with_fork,
}

pub data Command : Type 0 where
  to_reset : Command
  to_fork : String → Option String → Bool → Command
  to_unfork : Bool → Command

module _ {W Engine Config Value ShardIdent Documents : Type 0}
    (lib : Outside W Engine Config Value ShardIdent Documents) where
  abbrev pub run : Command → Exec (TonNodeEngineManager W Engine Config Value) (Unit {0})
  run to_reset = reset lib
  run (to_fork endpoint auth clears) = fork lib endpoint auth clears
  run (to_unfork clears) = unfork lib clears

  -- The configuration of the engine that a command makes.
  abbrev pub config_for :
      Command → TonNodeServiceConfig Config Value → TonNodeServiceConfig Config Value
  config_for to_reset original = original
  config_for (to_fork endpoint auth clears) original = with_fork lib original endpoint auth
  config_for (to_unfork clears) original = original

  -- On success a new engine of this configuration runs; after a failure the old one is stopped.
  abbrev pub Replaced :
      TonNodeServiceConfig Config Value
      → TonNodeEngineManager W Engine Config Value
      → NodeResult (Unit {0}) × TonNodeEngineManager W Engine Config Value
      → Type 0
  Replaced config m (ok u, m') =
      (m'.original_config ≡ m.original_config)
      × (m'.thread ≡ true)
      × ((w : W) × (create_engine lib config w ≡ (ok m'.engine, m'.outside)))
  Replaced config m (err error, m') =
      (m'.original_config ≡ m.original_config)
      × (m'.thread ≡ false)
      × (m'.engine ≡ lib.stop_queue m.engine)
  Replaced config m (panic, m') =
      (m'.original_config ≡ m.original_config)
      × (m'.thread ≡ false)
      × (m'.engine ≡ lib.stop_queue m.engine)

  replace-Replaced :
      (config : TonNodeServiceConfig Config Value)
      (m s : TonNodeEngineManager W Engine Config Value)
      → s.original_config ≡ m.original_config
      → s.thread ≡ false
      → s.engine ≡ lib.stop_queue m.engine
      → Replaced config m (replace_and_start lib config s)
  unfolding replace_and_start start
  replace-Replaced config m s same off old = go (create_engine lib config s.outside) refl
    where
      go :
          (r : NodeResult Engine × W)
          → create_engine lib config s.outside ≡ r
          → Replaced config m (
              continue r.0
                (λ engine (m : TonNodeEngineManager W Engine Config Value).
                  (ok tt, record m { engine = engine; thread = true }))
                (record s { outside = r.1 }))
      go (ok engine, w) made = (same, refl, (s.outside, made))
      go (err error, w) made = (same, off, old)
      go (panic, w) made = (same, off, old)

  cleared-Replaced :
      (config : TonNodeServiceConfig Config Value) (m : TonNodeEngineManager W Engine Config Value)
      → Replaced config m ((clear_db lib >> replace_and_start lib config) (stop lib m))
  unfolding clear_db stop
  cleared-Replaced config m = go (clear_outside lib m.original_config (stop lib m).outside)
    where
      go :
          (r : NodeResult (Unit {0}) × W)
          → Replaced config m (
              continue r.0
                (λ _. replace_and_start lib config)
                (record m { engine = lib.stop_queue m.engine; thread = false; outside = r.1 }))
      go (ok tt, w) =
          replace-Replaced config m
            (record m { engine = lib.stop_queue m.engine; thread = false; outside = w }) refl refl
            refl
      go (err error, w) = (refl, refl, refl)
      go (panic, w) = (refl, refl, refl)

  clear_if-Replaced :
      (clears : Bool) (config : TonNodeServiceConfig Config Value)
      (m : TonNodeEngineManager W Engine Config Value)
      → Replaced config m ((clear_if lib clears >> replace_and_start lib config) (stop lib m))
  unfolding clear_if
  clear_if-Replaced true config m = cleared-Replaced config m
  clear_if-Replaced false config m =
      unfold stop in replace-Replaced config m (stop lib m) refl refl refl

  -- Each of the three commands, on every branch: if it succeeds, a thread runs an engine that has been
  -- created for the command, from the original configuration or with the fork in place of its own. If
  -- it fails, no thread runs, and the node keeps the old engine, whose queue is stopped. The original
  -- configuration stays.
  pub run-Replaced :
      (command : Command) (m : TonNodeEngineManager W Engine Config Value)
      → Replaced (config_for command m.original_config) m (run command m)
  unfolding reset fork unfork
  run-Replaced to_reset m = cleared-Replaced m.original_config m
  run-Replaced (to_fork endpoint auth clears) m =
      clear_if-Replaced clears (with_fork lib m.original_config endpoint auth) m
  run-Replaced (to_unfork clears) m = clear_if-Replaced clears m.original_config m
