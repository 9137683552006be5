-- ===== src/Consumer/Jobs.antt =====
-- Job ids, `monitor_id:runner_pubkey:timestamp`: the consumer's extraction of the monitor.
use Prim.Native.Char.{Char, code}
use deping_client_service.Base.{List, String, [], arith, false, if◌then◌else◌, refl, ◌==◌, ◌∷◌, ◌≡◌}
use deping_client_service.Consumer.{extract_monitor_id_from_job_id}

-- strings.Split(s, ":")
pub split_colons : String → List String
split_colons String.[] = String.[] ∷ []
split_colons (String.◌∷◌ c s) =
    if code c == b':'
    then String.[] ∷ split_colons s
    else elim (split_colons s) [ [] ↦ String.◌∷◌ c String.[] ∷ [] | p ∷ ps ↦ String.◌∷◌ c p ∷ ps ]

abbrev pub first_part : List String → String
first_part [] = String.[]
first_part (p ∷ ps) = p

-- The extraction is the first of the parts between the colons.
pub extract-first_part :
    (s : String) → extract_monitor_id_from_job_id s ≡ first_part (split_colons s)
unfolding extract_monitor_id_from_job_id split_colons
extract-first_part String.[] = refl
extract-first_part (String.◌∷◌ c s) = ground (arith, extract-first_part s)

abbrev pub HasNoColon : String → Type 0
HasNoColon String.[] = Unit {0}
HasNoColon (String.◌∷◌ c s) = ((code c == b':') ≡ false) × HasNoColon s

abbrev pub colon : Char
colon = ":"

abbrev pub joined : String → String → String
joined String.[] rest = String.◌∷◌ colon rest
joined (String.◌∷◌ c s) rest = String.◌∷◌ c (joined s rest)

-- A monitor id without a colon is recovered from every job id that begins with it and a colon.
pub extract-joined :
    (id rest : String) → HasNoColon id → extract_monitor_id_from_job_id (joined id rest) ≡ id
unfolding extract_monitor_id_from_job_id
extract-joined String.[] rest h = refl
extract-joined (String.◌∷◌ c s) rest h = rw (h.0, extract-joined s rest h.1)
