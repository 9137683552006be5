-- ===== src/Router.antt =====
-- router/middleware.go and pkg/contextutils/keys.go: the decision of the JWT middleware on the header
-- Authorization, and what the handlers read from the context that it fills. The JWT library is the
-- parameter of the module Users.
pub mod Sessions
pub mod Routes
pub mod Guard
pub mod Pages
use Prim.Native.Char.{code}
use deping_client_service.Base.{Option, String, [], if◌then◌else◌, none, pos, some, ℕ, ℤ, ◌==◌, ◌∷◌}
use deping_client_service.Users.{Auth, Claims}

-- strings.HasPrefix with strings.TrimPrefix: the rest after the prefix.
unfoldable pub trim_prefix : String → String → Option String
trim_prefix String.[] s = some s
trim_prefix (String.◌∷◌ c p) String.[] = none
trim_prefix (String.◌∷◌ c p) (String.◌∷◌ d s) =
    let rest = trim_prefix p s in if code c == code d then rest else none

-- The handler is called with a user id and an email in its context, or the reply is 401.
pub data Access : Type 0 where
  granted : ℤ → String → Access
  unauthorized : String → Access

abbrev pub subject_access : Claims → Option ℤ → Access
subject_access claims none = unauthorized "invalid subject type"
subject_access claims (some user_id) = granted user_id claims.email

abbrev pub token_access : Option Claims → Access
token_access none = unauthorized "invalid or expired token"
token_access (some claims) = subject_access claims claims.sub

abbrev pub header_access : Auth → ℕ → Option String → Access
header_access auth now none = unauthorized "missing or malformed authorization header"
header_access auth now (some token) = token_access (auth.parse_token now token)

-- An empty header has no such prefix either.
unfoldable pub jwt_middleware : Auth → ℕ → String → Access
unfolding trim_prefix
jwt_middleware auth now auth_header = header_access auth now (trim_prefix "Bearer " auth_header)

-- GetUserID and GetUserEmail; without the middleware the context holds neither.
unfoldable pub get_user_id : Option Access → ℤ
get_user_id (some (granted user_id email)) = user_id
get_user_id o = pos 0

unfoldable pub get_user_email : Option Access → String
get_user_email (some (granted user_id email)) = email
get_user_email o = ""
