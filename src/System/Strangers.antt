-- ===== src/System/Strangers.antt =====
-- What the bot does for a sender without a verified account (bot/bot.go, registerHandlers).
use deping_client_service.Base.{Bool, Option, String, false, inl, refl, ◌≡◌}
use deping_client_service.World.{World}
use deping_client_service.Bot.{Context, HandlerFunc}
use deping_client_service.Bot.Guard.{
  IsStranger, TurnedAway, TurnsAway, is_open_command, no_command, register_handlers-TurnsAway,
  turns_away,
}
use deping_client_service.Bot.Handlers.{register_handlers}
use deping_client_service.System.{Service, handled, happen, update}

handled-TurnedAway :
    (o : Option HandlerFunc) (c : Context) (w : World)
    → TurnsAway o
    → IsStranger c w
    → TurnedAway c w (handled o c w)
handled-TurnedAway _ c w no_command stranger = inl refl
handled-TurnedAway _ c w (turns_away handler away) stranger = away c w stranger

-- Every command and every button of the bot but /start, /help and /verify turns away a sender whose chat
-- is not that of a verified account, whichever calls fail: nothing changes in the service, and no message
-- goes out but one to the chat that says so or that the system is busy.
pub happen-TurnedAway :
    (unique_usernames : Bool) (endpoint : String) (c : Context) (v : Service)
    → is_open_command endpoint ≡ false
    → IsStranger c v.world
    → let v' = happen (update unique_usernames endpoint c) v in
      TurnedAway c v.world v'.world × (v'.registry ≡ v.registry)
unfolding happen
happen-TurnedAway unique_usernames endpoint c v guarded stranger = (
  handled-TurnedAway (register_handlers unique_usernames endpoint) c v.world
      (register_handlers-TurnsAway unique_usernames endpoint guarded) stranger,
  refl,
)
