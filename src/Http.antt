-- ===== src/Http.antt =====
-- Requests and replies of net/http as the controllers use them: dto, and writeJSON, respondJSON and
-- respondError of controllers. What the program does not define is given by `Services`: the
-- decoding of a request's JSON body (`none` is an error), the libraries and the configured values that
-- the services take, and the four random bytes of a verification code.
use deping_client_service.Base.{
  Bool, List, Option, String, [], if◌then◌else◌, none, pos_part, some, str_eq, ℕ, ℤ, ◌∷◌,
}
use deping_client_service.World.{Error, M, pure}
use deping_client_service.Credits.{TelegramCreditStatus}
use deping_client_service.Monitors.{CreateMonitorRequest, MonitorResponse, MonitorTable}
use deping_client_service.Monitors.Stats.{MonitorStatsResponse}
use deping_client_service.Router.{Access, get_user_email, get_user_id}
use deping_client_service.Runner.{NodeDefaults}
use deping_client_service.Runner.Nodes.{NodeTools, RegisterRunnerRequest, RunnerResponse, View}
use deping_client_service.Solana.{Chain, TxInfo}
use deping_client_service.Telegram.Service.{LinkTelegramResponse, ResponseEnvelope}
use deping_client_service.Users.{Auth, AuthResponse, LoginRequest, RegisterRequest, UserInfo}

-- dto/telegram.go, AddCreditsRequest.
pub record AddCreditsRequest : Type 0 where
  pub amount : ℤ
  pub tx_signature : String
  pub credit_balance : ℤ

-- dto/noderunner.go, StakeRequest and DeleteNodeRequest.
pub record StakeRequest : Type 0 where
  pub signature : String
  pub amount : ℕ
  pub node_pda : String
  pub pubkey : String

pub record DeleteNodeRequest : Type 0 where
  pub node_pda : String
  pub pubkey : String

-- controllers/transaction.go, ValidateRequest.
pub record ValidateRequest : Type 0 where
  pub signature : String
  pub expected_amount : ℕ
  pub node_pda : String

-- controllers/noderunner.go, the request of ActivateNode.
pub record ActivateRequest : Type 0 where
  pub pubkey : String
  pub pda : String

pub record Services : Type 0 where
  pub decode_register : String → Option RegisterRequest
  pub decode_login : String → Option LoginRequest
  pub decode_add_credits : String → Option AddCreditsRequest
  pub decode_create_monitor : String → Option CreateMonitorRequest
  -- The field telegram_username, is_notifications_enabled, and pubkey.
  pub decode_link : String → Option String
  pub decode_toggle : String → Option Bool
  pub decode_me : String → Option String
  pub decode_runner : String → Option RegisterRunnerRequest
  pub decode_stake : String → Option StakeRequest
  pub decode_delete_node : String → Option DeleteNodeRequest
  pub decode_activate : String → Option ActivateRequest
  pub decode_validate : String → Option ValidateRequest
  pub auth : Auth
  pub chain : Chain
  pub treasury_owner : String
  pub stake_treasury_owner : String
  pub monitor_table : MonitorTable
  pub node_tools : NodeTools
  pub node_defaults : NodeDefaults
  pub unique_usernames : Bool
  pub bot_username : String
  pub random : Option (List ℕ)
  -- The clock of the registry in nanoseconds.
  pub clock : ℕ
  -- The status with which the upgrade to a WebSocket connection ends (ws/hub.go, ServeWs).
  pub upgraded : ℕ

-- The path is split at its slashes; "/" and the text after the first one are left out, as in
-- `"api" ∷ "v1" ∷ []` for /api/v1.
pub record Request : Type 0 where
  pub method : String
  pub path : List String
  pub authorization : String
  pub query_pubkey : String
  pub body : String

-- A request with the context that the middleware fills and the values of the path's wildcards.
pub record Call : Type 0 where
  pub request : Request
  pub access : Option Access
  pub path_values : List (String × String)

-- The bodies of the replies, by their shape.
pub data Body : Type 0 where
  -- Text as it is: "pong", and the body of http.Error.
  plain : String → Body
  -- dto.ErrorResponse: a text, a text with the error of a service after it, and one with that of the
  -- decoder.
  error_body : String → Body
  error_of : String → Error → Body
  decode_error : String → Body
  -- dto.MessageResponse, and an object with the one field "status".
  message_body status_body : String → Body
  auth_body : AuthResponse → Body
  user_body : UserInfo → Body
  monitor_body : MonitorResponse → Body
  monitors_body : List MonitorResponse → Body
  stats_body : MonitorStatsResponse → Body
  link_body : LinkTelegramResponse → Body
  envelope_body : ResponseEnvelope → Body
  -- { "success": false, "error": … }
  failed_body : String → Body
  failed_with : Error → Body
  credit_status_body : TelegramCreditStatus → Body
  credits_added_body : ℤ → Body
  subscription_body : String → Bool → Body
  runner_body : RunnerResponse → Body
  view_body : View → Option RunnerResponse → Body
  transfer_body : TxInfo → Body

pub record Response : Type 0 where
  pub status : ℕ
  pub body : Body

abbrev pub Handler : Type 0
Handler = Services → Call → M Response

-- writeJSON and respondJSON; respondError has an `error_body`.
abbrev pub write_json : ℕ → Body → M Response
write_json status body = pure (record { status = status; body = body })

abbrev pub respond_error : ℕ → String → M Response
respond_error status what = write_json status (error_body what)

-- json.NewDecoder(r.Body).Decode(&req), with the reply to a body that it refuses.
abbrev pub decoding : {A : Type 0} → Option A → M Response → (A → M Response) → M Response
decoding none refuse handle = refuse
decoding (some req) refuse handle = handle req

-- contextutils.GetUserID and userIDFromContext; the ids in the tokens are those of `users`, which are
-- not negative.
abbrev pub user_id_of : Call → ℕ
user_id_of call = pos_part (get_user_id call.access)

abbrev pub email_of : Call → String
email_of call = get_user_email call.access

-- r.PathValue
unfoldable pub lookup : String → List (String × String) → String
lookup name [] = ""
lookup name ((key, value) ∷ values) =
    let rest = lookup name values in if str_eq key name then value else rest

abbrev pub path_value : String → Call → String
path_value name call = lookup name call.path_values
