-- ===== src/Bot/Text.antt =====
-- strings.TrimSpace, which the bot applies to a code (bot/bot.go).
use Prim.Native.Char.{Char, code}
use deping_client_service.Base.{Bool, String, if◌then◌else◌, leb, ℕ, ◌&&◌, ◌==◌, ◌||◌}

-- unicode.IsSpace
abbrev pub is_space : ℕ → Bool
is_space n =
    leb 9 n && leb n 13
    || (n == 32 || n == 133 || n == 160 || n == 5760)
    || (leb 8192 n && leb n 8202)
    || (n == 8232 || n == 8233 || n == 8239 || n == 8287 || n == 12288)

unfoldable pub trim_left : String → String
trim_left String.[] = String.[]
trim_left (String.◌∷◌ c s) =
    let rest = trim_left s in if is_space (code c) then rest else String.◌∷◌ c s

abbrev pub cons_or_drop : Char → String → String
cons_or_drop c String.[] = if is_space (code c) then String.[] else String.◌∷◌ c String.[]
cons_or_drop c (String.◌∷◌ d s) = String.◌∷◌ c (String.◌∷◌ d s)

unfoldable pub trim_right : String → String
trim_right String.[] = String.[]
trim_right (String.◌∷◌ c s) = cons_or_drop c (trim_right s)

unfoldable pub trim_space : String → String
unfolding trim_left trim_right
trim_space s = trim_right (trim_left s)
