-- ===== src/Tests/System.antt =====
-- Examples for the service as a whole.
use deping_client_service.Base.{
  List, [], arith, exists_where, false, in_int4, insert_missing, pos, refl, select_one, some, true,
  update_where, upsert, ℕ, ◌+ℤ◌, ◌+◌, ◌∷◌, ◌≡◌,
}
use deping_client_service.World.{calm, ok}
use deping_client_service.Alert.{
  advance, build_down_alert, dispatch_alert, format_alert_message, process_ping_result,
}
use deping_client_service.Alert.Machine.{alert_due, failing_run}
use deping_client_service.Alert.Process.{TracksIn}
use deping_client_service.Bot.{with_auth}
use deping_client_service.Bot.Guard.{TurnedAway}
use deping_client_service.Bot.Handlers.{handle_credits}
use deping_client_service.Consumer.{process_results}
use deping_client_service.Consumer.Redelivery.{batch}
use deping_client_service.Credits.{
  TelegramCreditStatus, deduct_locked, deduct_telegram_credit, get_credit_status, spend_tier,
}
use deping_client_service.Health.{get_monitor_owner_chat_id, notification_enabled, owner_chat}
use deping_client_service.Invariant.{IsSound, paying}
use deping_client_service.Payments.{add_monitor_purchased_credits}
use deping_client_service.Router.Pages.{monitor_page, page}
use deping_client_service.System.{
  Event, Service, delivered, eviction_tick, happen, logged, meanwhile, request, run_events, update,
}
use deping_client_service.System.Alerts.{run_events-told, single, told}
use deping_client_service.System.Chats.{run_events-owner_chat}
use deping_client_service.System.History.{run_events-TracksIn, unhindered}
use deping_client_service.System.Ledger.{run_events-get_credit_status}
use deping_client_service.System.Once.{BuysNothing, add_monitor_purchased_credits-BuysNothing}
use deping_client_service.System.Outages.{run_events-alert_due}
use deping_client_service.System.Reachable.{
  run_events-IsSound, run_events-get_monitor_owner_chat_id,
}
use deping_client_service.System.Strangers.{happen-TurnedAway}
use deping_client_service.Telegram.Service.{get_user_id_from_chat_id}
use deping_client_service.Tests.{sample_chain, sample_log, sample_result, sample_world}
use deping_client_service.Tests.Alerts.{failing_once}
use deping_client_service.Tests.Bot.{ann_context, bob_context}
use deping_client_service.Tests.Purchases.{monitor_bought}
use deping_client_service.Tests.Routes.{sample_services}

-- The second user verifies the link, the monitor m1 fails twice, and the first user pauses it; the last
-- calls fail.
abbrev sample_events : List Event
sample_events =
    meanwhile 100001 []
    ∷ update true "/verify" bob_context
    ∷ delivered (some (batch "runner" (sample_result "m1") (sample_result "m1")))
    ∷ request sample_services (page "PUT" (monitor_page "m1" "pause") "Bearer token" "")
    ∷ logged (sample_log false 300 100000 "eu")
    ∷ eviction_tick 100002
    ∷ meanwhile 100003 (true ∷ true ∷ [])
    ∷ delivered (some (batch "runner" (sample_result "m2") (sample_result "m1")))
    ∷ []

abbrev sample_service : Service
sample_service = record { world = calm sample_world; registry = [] }

sample_world-IsSound : IsSound (paying []) (calm sample_world)
unfolding exists_where
sample_world-IsSound = record {
  credit_rows = ((refl, refl, refl), tt);
  credit_keys = (refl, tt);
  link_rows = ((refl, refl), ((refl, refl), tt));
  link_owners = (refl, (refl, tt));
  link_chats = (refl, (refl, tt));
  health_rows = tt;
  monitor_rows = (refl, (refl, tt));
  payment_rows = tt;
  payment_keys = tt;
  paid_rows = tt;
  known_rows = tt;
  health_as = tt;
}

run_events-IsSound_example : IsSound (paying []) (run_events sample_events sample_service).world
run_events-IsSound_example =
    run_events-IsSound sample_events sample_service (λ _. tt) sample_world-IsSound

happen-TurnedAway_example :
    let v' = happen (update true "/credits" bob_context) sample_service in
    TurnedAway bob_context sample_service.world v'.world × (v'.registry ≡ [])
unfolding select_one
happen-TurnedAway_example = happen-TurnedAway true "/credits" bob_context sample_service refl tt

run_events-get_monitor_owner_chat_id_example :
    (found : ℕ × ℕ) × ((get_monitor_owner_chat_id "m1"
        (calm (run_events sample_events sample_service).world)).0
      ≡ ok found)
run_events-get_monitor_owner_chat_id_example =
    run_events-get_monitor_owner_chat_id sample_events sample_service "m1" sample_world-IsSound

add_monitor_purchased_credits-BuysNothing_example :
    let w =
      (add_monitor_purchased_credits sample_chain "TREASURY" 1
        (pos 100)
        "sig"
        (pos 20)
        (calm sample_world)).1 in
    BuysNothing "sig" (run_events sample_events (record { world = w; registry = [] })).world
add_monitor_purchased_credits-BuysNothing_example =
    add_monitor_purchased_credits-BuysNothing sample_chain "TREASURY" 1 (pos 100) "sig" (pos 20)
      sample_service {balance = pos 30} sample_events sample_world-IsSound monitor_bought

-- Two failures of m1 in one delivery: an alert is sent, for the last free message.
abbrev two_failures : List Event
two_failures = delivered (some (batch "runner" (sample_result "m1") (sample_result "m1"))) ∷ []

abbrev status_after : TelegramCreditStatus
status_after = record {
  free_credits_used = 3;
  free_credits_left = 0;
  free_reset_date = 1;
  purchased_credits = pos 2;
  total_credits_left = pos 2;
}

status_shown :
    (get_credit_status 1 (run_events two_failures sample_service).world).0 ≡ ok status_after
unfolding get_credit_status run_events happen process_results process_ping_result exists_where
    advance select_one upsert dispatch_alert notification_enabled build_down_alert owner_chat
    deduct_telegram_credit deduct_locked insert_missing spend_tier update_where ◌+ℤ◌
status_shown = refl

run_events-get_credit_status_example : (0 + 3 ≡ 3) × (in_int4 (pos 2) ≡ true)
run_events-get_credit_status_example =
    run_events-get_credit_status two_failures sample_service 1 {status = status_after}
      sample_world-IsSound status_shown

-- The monitor m1 has failed once.
abbrev failing_service : Service
failing_service = record {
  world = record (calm sample_world) { health = failing_once ∷ [] };
  registry = [];
}

failing_service-IsSound : IsSound (paying []) failing_service.world
failing_service-IsSound = record {
  credit_rows = sample_world-IsSound.credit_rows;
  credit_keys = sample_world-IsSound.credit_keys;
  link_rows = sample_world-IsSound.link_rows;
  link_owners = sample_world-IsSound.link_owners;
  link_chats = sample_world-IsSound.link_chats;
  health_rows = ((refl, refl, refl), tt);
  monitor_rows = sample_world-IsSound.monitor_rows;
  payment_rows = tt;
  payment_keys = tt;
  paid_rows = tt;
  known_rows = tt;
  health_as = tt;
}

abbrev quiet_events : List Event
quiet_events = meanwhile 100001 (true ∷ []) ∷ logged (sample_log false 300 100000 "eu") ∷ []

run_events-told_example :
    let v' =
      happen
        (delivered (single "runner" (sample_result "m1")))
        (record failing_service { world = calm (run_events quiet_events failing_service).world }) in
    v'.world.sent
    ≡ record { chat_id = 77; body = format_alert_message (build_down_alert (sample_result "m1")) }
      ∷ []
unfolding run_events happen select_one exists_where notification_enabled owner_chat
run_events-told_example =
    run_events-told quiet_events failing_service "runner" (sample_result "m1")
      failing_service-IsSound refl refl refl (λ e. omega arith) refl (omega arith)

-- Two failures of m1, a request to pause it, a failure of m2 and one more of m1.
abbrev timed_events : List (ℕ × Event)
timed_events =
    (100001, delivered (some (batch "runner" (sample_result "m1") (sample_result "m1"))))
    ∷ (100002, request sample_services (page "PUT" (monitor_page "m1" "pause") "Bearer token" ""))
    ∷ (100003, delivered (some (batch "runner" (sample_result "m2") (sample_result "m1"))))
    ∷ []

run_events-TracksIn_example :
    TracksIn "m1"
      (false ∷ false ∷ false ∷ [])
      (run_events (unhindered timed_events) sample_service).world
unfolding select_one exists_where failing_run
run_events-TracksIn_example =
    run_events-TracksIn timed_events sample_service "m1" [] sample_world-IsSound refl refl
      (record { counted = refl; down = refl; alerted = refl })

run_events-owner_chat_example :
    let w = calm (run_events quiet_events sample_service).world in
    ((get_user_id_from_chat_id 77 w).0 ≡ ok 1)
    × (with_auth handle_credits ann_context w ≡ handle_credits ann_context w)
unfolding run_events happen select_one owner_chat
run_events-owner_chat_example =
    run_events-owner_chat quiet_events sample_service "m1" handle_credits ann_context
      sample_world-IsSound refl

-- One failure of m1, and a tick.
abbrev one_failure : List (ℕ × Event)
one_failure =
    (100001, delivered (single "runner" (sample_result "m1"))) ∷ (100002, eviction_tick 5) ∷ []

run_events-alert_due_example :
    let w = (run_events (unhindered one_failure) sample_service).world in
    let v' =
      happen
        (delivered (single "runner" (sample_result "m1")))
        (record sample_service { world = calm w }) in
    v'.world.sent ≡ told 77 (some (build_down_alert (sample_result "m1"))) w.sent
unfolding alert_due run_events happen select_one exists_where notification_enabled owner_chat
    failing_run process_results process_ping_result advance upsert
run_events-alert_due_example =
    run_events-alert_due one_failure sample_service "runner" (sample_result "m1") []
      sample_world-IsSound refl refl (record { counted = refl; down = refl; alerted = refl }) refl
      refl (λ e. omega arith) refl (omega arith)
