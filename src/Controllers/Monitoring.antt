-- ===== src/Controllers/Monitoring.antt =====
-- controllers/monitor.go.
use deping_client_service.Base.{String, not, str_eq}
use deping_client_service.World.{M, attempt, choose}
use deping_client_service.Http.{
  Call, Handler, Response, decoding, lookup, message_body, monitor_body, monitors_body, path_value,
  respond_error, stats_body, user_id_of, write_json,
}
use deping_client_service.Monitors.{create, delete, list_by_owner, pause, resume}
use deping_client_service.Monitors.Stats.{stats}

unfoldable pub monitor_create : Handler
unfolding create
monitor_create s call =
    choose (not (str_eq call.request.method "POST")) (respond_error 405 "method not allowed") (
      decoding (s.decode_create_monitor call.request.body)
        (respond_error 400 "invalid request body")
        λ req.
          attempt (create s.monitor_table (user_id_of call) req)
            (λ e. respond_error 500 "failed to create monitor")
            λ resp. write_json 201 (monitor_body resp))

unfoldable pub monitor_list : Handler
unfolding list_by_owner
monitor_list s call =
    attempt (list_by_owner (user_id_of call)) (λ e. respond_error 500 "failed to fetch monitors")
      λ resp. write_json 200 (monitors_body resp)

-- `id := r.PathValue("id")`, which must not be empty.
abbrev pub with_id : Call → (String → M Response) → M Response
with_id call handle =
    choose (str_eq (path_value "id" call) "") (respond_error 400 "missing id")
      (handle (path_value "id" call))

unfoldable pub monitor_stats : Handler
unfolding stats lookup
monitor_stats s call = with_id call λ id.
    attempt (stats id (user_id_of call)) (λ e. respond_error 500 "failed to fetch stats")
      λ resp. write_json 200 (stats_body resp)

unfoldable pub monitor_pause : Handler
unfolding pause lookup
monitor_pause s call = with_id call λ id.
    attempt (pause id (user_id_of call)) (λ e. respond_error 500 "failed to pause monitor")
      λ _. write_json 200 (message_body "monitor paused")

unfoldable pub monitor_resume : Handler
unfolding resume lookup
monitor_resume s call = with_id call λ id.
    attempt (resume id (user_id_of call)) (λ e. respond_error 500 "failed to resume monitor")
      λ _. write_json 200 (message_body "monitor resumed")

unfoldable pub monitor_delete : Handler
unfolding delete lookup
monitor_delete s call = with_id call λ id.
    attempt (delete id (user_id_of call)) (λ e. respond_error 500 "failed to delete monitor")
      λ _. write_json 200 (message_body "monitor deleted")
