-- ===== src/App/Process.antt =====
-- The process: main.go, Run and shutdown of app/application.go.
use deping_client_service.Base.{List, String, [], ℕ, ◌∷◌}
use deping_client_service.World.{Error, Outcome, err, ok, panic}
use deping_client_service.App.{Broker, Platform, new_application}
use deping_client_service.Env.{Config, load_config}

-- What ends the select of Run.
pub data Ending : Type 0 where
  shutdown_signal : Ending
  server_error : Error → Ending

-- What shutdown closes, in its order.
pub data Closing : Type 0 where
  bot_stop consumer_stop http_shutdown redis_close amqp_close db_close : Closing

unfoldable pub shutdown : Outcome (Unit {0}) → List Closing × Outcome (Unit {0})
shutdown db_closed =
    (bot_stop ∷ consumer_stop ∷ http_shutdown ∷ redis_close ∷ amqp_close ∷ db_close ∷ [], db_closed)

-- An error of the server ends Run without the shutdown.
unfoldable pub run : Ending → Outcome (Unit {0}) → List Closing × Outcome (Unit {0})
unfolding shutdown
run shutdown_signal db_closed = shutdown db_closed
run (server_error e) db_closed = ([], err e)

-- `os.Exit(1)` after an error; a panic ends the process with 2.
abbrev pub exit_code : Outcome (Unit {0}) → ℕ
exit_code (ok a) = 0
exit_code (err e) = 1
exit_code panic = 2

abbrev pub run_outcome : Ending → Outcome (Unit {0}) → Outcome String → ℕ
run_outcome ending db_closed (ok addr) = exit_code (run ending db_closed).1
run_outcome ending db_closed (err e) = 1
run_outcome ending db_closed panic = 2

abbrev pub config_outcome : Platform → Ending → Outcome (Unit {0}) → Broker → Outcome Config → ℕ
config_outcome p ending db_closed b (ok cfg) =
    run_outcome ending db_closed (new_application p cfg b).0
config_outcome p ending db_closed b (err e) = 1
config_outcome p ending db_closed b panic = 2

-- The exit code of the process.
unfoldable pub main : Platform → (String → String) → Ending → Outcome (Unit {0}) → Broker → ℕ
unfolding load_config new_application run
main p getenv ending db_closed b = config_outcome p ending db_closed b (load_config getenv)
