-- ===== src/Env/Once.antt =====
-- The global configuration (config/env/env.go, Load and Get): `none` before the first Load, then the
-- result of that.
use deping_client_service.Base.{Option, String, none, refl, some, ◌≡◌}
use deping_client_service.World.{Outcome, err, ok, panic}
use deping_client_service.Env.{Config, load_config}
use deping_client_service.Env.Valid.{IsValid, OkValid, load_config-OkValid}

unfoldable pub load :
    (String → String) → Option (Outcome Config) → Outcome Config × Option (Outcome Config)
unfolding load_config
load getenv none = (load_config getenv, some (load_config getenv))
load getenv (some result) = (result, some result)

-- A nil configuration panics.
unfoldable pub get : Option (Outcome Config) → Outcome Config
get (some (ok cfg)) = ok cfg
get o = panic

abbrev pub OnlyValid : Outcome Config → Type 0
OnlyValid (ok cfg) = IsValid cfg
OnlyValid (err e) = ⊥
OnlyValid panic = Unit {0}

only_valid : (o : Outcome Config) → OkValid o → OnlyValid (get (some o))
unfolding get
only_valid (ok cfg) v = v
only_valid (err e) v = tt
only_valid panic v = tt

-- The environment is read once: a second Load, whatever the environment is by then, returns the result
-- of the first, an error too, and Get returns a valid configuration or panics, never anything else.
pub load_once :
    (first second : String → String)
    → let (o, state) = load first none in
      let (o', state') = load second state in (o' ≡ o) × (state' ≡ state) × OnlyValid (get state')
unfolding load
load_once first second = (refl, refl, only_valid (load_config first) (load_config-OkValid first))
