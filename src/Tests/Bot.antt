-- ===== src/Tests/Bot.antt =====
-- Examples for the bot.
use deping_client_service.Base.{
  String, [], arith, exists_where, false, insert_desc, order_desc, pos, refl, select_one,
  select_where, true, ◌∷◌, ◌≡◌,
}
use deping_client_service.World.{Monitor, World, calm, ok, panic, responded}
use deping_client_service.Alert.{AlertEvent, dispatch_alert, format_alert_message}
use deping_client_service.Bot.{Context, handle_start, handle_verify}
use deping_client_service.Bot.Alerts.{handle_verify-dispatch_alert}
use deping_client_service.Bot.Chat.{handle_start-get_monitor_owner_chat_id}
use deping_client_service.Bot.Handlers.{handle_show_monitor}
use deping_client_service.Bot.Notify.{press, press_flips, status_of}
use deping_client_service.Bot.Show.{handle_show_monitor-PanicsOrEdits}
use deping_client_service.Bot.Text.{trim_space}
use deping_client_service.Env.{byte_length}
use deping_client_service.Health.{get_monitor_owner_chat_id, notification_enabled}
use deping_client_service.Tests.{ann, bob, logged_world, sample_monitor, sample_world}

-- The first user presses a button below the monitor m1.
abbrev pub ann_context : Context
ann_context = record {
  sender_id = 77;
  sender_username = "ann";
  chat_id = 77;
  args = [];
  callback_data = "m1";
}

-- The second user verifies, with blanks around the code.
abbrev pub bob_context : Context
bob_context = record {
  sender_id = 88;
  sender_username = "bob";
  chat_id = 88;
  args = "00ff10a0\n" ∷ [];
  callback_data = "";
}

abbrev bobs_monitor : Monitor
bobs_monitor = record (sample_monitor "m3") { owner_id = 2 }

abbrev bobs_world : World
bobs_world = record sample_world { monitors = bobs_monitor ∷ [] }

abbrev down_alert : String → AlertEvent
down_alert id = record {
  monitor_id = id;
  target_url = "https://example.org";
  is_down = true;
  latency_ms = pos 12;
  status_code = pos 503;
  error_kind = "http";
  geo_region = "eu";
  timestamp = pos 1000;
}

press_flips_example :
    let (o, w') = press ann_context sample_world in
    (o ≡ ok tt)
    × (status_of 1 "m1" w' ≡ false)
    × (w'.answers ≡ responded 77 "Notifications Disabled 🔕" ∷ [])
    × (record w' { subscriptions = []; answers = [] } ≡ calm sample_world)
    × (status_of 1 "m1" (press ann_context w').1 ≡ true)
unfolding select_one exists_where
press_flips_example = press_flips ann_context ann refl sample_world refl refl

handle_show_monitor-PanicsOrEdits_example :
    handle_show_monitor ann_context (calm logged_world) ≡ (panic, calm logged_world)
unfolding select_where order_desc insert_desc exists_where byte_length
handle_show_monitor-PanicsOrEdits_example =
    handle_show_monitor-PanicsOrEdits ann_context logged_world

handle_start-get_monitor_owner_chat_id_example :
    let moved = record ann_context { sender_id = 99; chat_id = 99 } in
    let (o, w') = handle_start moved (calm sample_world) in
    (o ≡ ok tt) × (get_monitor_owner_chat_id "m1" (calm w') ≡ (ok (99, 1), w'))
unfolding select_one exists_where
handle_start-get_monitor_owner_chat_id_example =
    handle_start-get_monitor_owner_chat_id (record ann_context { sender_id = 99; chat_id = 99 })
      sample_world {t = ann} refl refl refl refl "m1" {m = sample_monitor "m1"} refl refl

handle_verify-dispatch_alert_example :
    let w1 = (handle_verify true bob_context (calm bobs_world)).1 in
    let (o, w2) = dispatch_alert (down_alert "m3") (calm w1) in
    (o ≡ ok tt)
    × (w2.sent ≡ record { chat_id = 88; body = format_alert_message (down_alert "m3") } ∷ w1.sent)
unfolding select_one exists_where trim_space notification_enabled
handle_verify-dispatch_alert_example =
    handle_verify-dispatch_alert true bob_context "00ff10a0\n" [] bobs_world (down_alert "m3")
      {t = bob} {m = bobs_monitor} refl refl refl refl refl refl refl (λ e. omega arith) refl refl
      (omega arith)
