-- ===== src/Examples/Storage.antt =====
-- Runs of the queue, of the tables and of the reporter.
use scada_guard.Prelude.{
  if◌then◌else◌, ℕ, pos, suc, ◌≤◌, ◌≡◌, refl, String, true, false, none, some, List, [], ◌∷◌, ◌++◌,
  length, arith, lookup, insert,
}
use scada_guard.Model.{seconds}
use scada_guard.Storage.Queue.{
  QueueRow, Queue, Event, store_event, Call, stores, numbers, sends, fails, calls, pending_events,
  kept_rows,
}
use scada_guard.Storage.Queue.Bounds.{
  droppable, lasting, added, store_event_bound, lasting-store_event,
}
use scada_guard.Storage.Queue.Order.{IsOrdered, calls-IsOrdered}
use scada_guard.Storage.Queue.Delivery.{ids}
use scada_guard.Storage.Tables.{
  LogCheckState, FileCheckState, Tables, save_working_central_configuration,
  load_working_central_configuration,
}
use scada_guard.Reporter.{
  CentralServerConfig, Reporter, Round, flush, Attempt, send, send_configuration_status,
}
use scada_guard.Reporter.Flush.{accepted, throws, without, flush_lem}
use scada_guard.Reporter.Status.{send_configuration_status-length}
use scada_guard.Reporter.Blocking.{Waits, IsNothing, flush-Waits, flush_blocked}
use scada_guard.Examples.Libs.{Doc, docs, clock_texts, obj, field, txt}

abbrev row : ℕ → String → String → Doc → QueueRow Doc
row id message_id kind payload = record {
  id = id;
  message_id = message_id;
  kind = kind;
  sequence_number = id;
  payload = payload;
  created_at = 0;
  attempt_count = 0;
  next_attempt_at = none;
}

abbrev addressed : Doc
addressed = field (field obj "delivery_path" (txt "/api/v1/heartbeat")) "body" obj

-- A heartbeat, an incident and a heartbeat.
abbrev queue : Queue Doc
queue = record {
  rows =
      row 1 "a" "heartbeat" addressed
      ∷ row 2 "b" "incidents" addressed
      ∷ row 4 "c" "heartbeat" addressed
      ∷ [];
  last_id = 4;
  sequence = 4;
}

abbrev heartbeat : Event Doc
heartbeat = record {
  payload = addressed;
  kind = "heartbeat";
  message_id = "d";
  sequence_number = 5;
}

store_event_bound_example : length (droppable (store_event heartbeat 2 0 queue).rows) ≤ 2
store_event_bound_example = store_event_bound heartbeat 2 0 queue refl (omega arith)

lasting-store_event_example :
    lasting (store_event heartbeat 2 0 queue).rows
    ≡ lasting queue.rows ++ lasting (added heartbeat 0 queue (kept_rows "heartbeat" 2 queue.rows))
lasting-store_event_example = lasting-store_event heartbeat 2 0 queue

queue-IsOrdered : IsOrdered queue
queue-IsOrdered = (omega arith, (omega arith, (omega arith, omega arith, refl), refl), refl)

abbrev work : List (Call Doc)
work = stores heartbeat 2 0 ∷ fails 2 (seconds 2) 0 ∷ numbers ∷ sends 4 ∷ stores heartbeat 0 9 ∷ []

calls-IsOrdered_example : IsOrdered (calls work queue)
calls-IsOrdered_example = calls-IsOrdered work queue queue-IsOrdered

abbrev position : LogCheckState
position = record {
  check_id = "scada-log";
  offset = 4096;
  file_id = 77;
  volume_serial = 5;
  updated_at = 25000000;
}

abbrev tables : Tables Doc
tables = record {
  check_state = [];
  incident_rows = [];
  log_state = [];
  file_state = [];
  agent_state = [];
  discovery_state = [];
}

abbrev file : FileCheckState
file = record {
  check_id = "archive-file";
  size = 10;
  modified_at = 25000000;
  last_change_at = 35000000;
}

abbrev saved : Tables Doc
saved = save_working_central_configuration docs clock_texts obj tables

saved_lem : load_working_central_configuration docs clock_texts saved ≡ some obj
unfolding load_working_central_configuration save_working_central_configuration lookup insert
saved_lem = refl

abbrev server : CentralServerConfig
server = record {
  enabled = true;
  production = true;
  base_url = "https://central";
  heartbeat_interval_seconds = pos 60;
  request_timeout_seconds = pos 10;
  max_queue_size = 100;
}

abbrev reporter : Reporter Doc
reporter = record { config = server; queue = queue; retry_attempt = 0; next_retry = 0 }

-- Two answers 202, and then none.
abbrev rounds : ℕ → Round
rounds i = record {
  stopped = false;
  attempt = record {
    stop_requested = false;
    token = some "secret";
    dump_throws = false;
    response = elim i [ suc (suc _) ↦ none | _ ↦ some 202 ];
    storage_fails = false;
  };
  now = i;
}

flush_lem_example :
    let taken = accepted docs rounds 0 (pending_events 100 7 queue) in
    let throwing = throws docs rounds 0 (pending_events 100 7 queue) in
    let (after, count) = flush docs rounds 5 7 reporter in
    (count ≡ (if throwing then none else some (length taken)))
    × (ids after.queue.rows ≡ without taken (ids queue.rows))
flush_lem_example = flush_lem docs rounds 5 7 reporter (omega arith)

flush-Waits_example : Waits docs rounds 5 0 (flush docs rounds 5 7 reporter).0
flush-Waits_example = flush-Waits docs rounds 5 7 reporter (omega arith)

-- The head names no path.
abbrev stuck : Reporter Doc
stuck = record reporter {
  queue = record queue { rows = row 1 "z" "incidents" obj ∷ row 2 "b" "incidents" addressed ∷ [] };
}

flush_blocked_example :
    IsNothing docs rounds 5 (flush docs rounds 5 7 stuck).1
    × (ids (flush docs rounds 5 7 stuck).0.queue.rows ≡ 1 ∷ 2 ∷ [])
flush_blocked_example =
    flush_blocked docs rounds 5 7 stuck (row 1 "z" "incidents" obj)
      (row 2 "b" "incidents" addressed ∷ []) refl refl refl

abbrev full : Reporter Doc
full = record reporter { config = record server { max_queue_size = 1 } }

abbrev offline : Attempt
offline = record {
  stop_requested = false;
  token = some "secret";
  dump_throws = false;
  response = none;
  storage_fails = false;
}

offline_fails : send offline ≡ some false
unfolding send
offline_fails = refl

abbrev applied : Doc
applied = field obj "status" (txt "applied")

send_configuration_status-length_example :
    length (send_configuration_status docs applied offline "fresh" 9 full).0.queue.rows ≡ 4
send_configuration_status-length_example =
    send_configuration_status-length docs applied offline "fresh" 9 full offline_fails refl refl
      refl refl refl
