-- ===== src/Examples/Config.antt =====
-- Runs of the reading of the configuration and of its hash.
use scada_guard.Prelude.{
  ℕ, arith, ◌≡◌, ◌≢◌, refl, ◌++◌, String, Bool, true, false, Option, none, some, List, [], ◌∷◌, pos,
}
use scada_guard.Central.{Result, thrown, returned}
use scada_guard.Config.{AppConfig, each_check, central_errors}
use scada_guard.Config.Validate.{
  validate_config, general_errors, check_errors, signals_errors, source_errors, type_errors,
}
use scada_guard.Config.Hash.{configuration_hash}
use scada_guard.Config.Hash.Distinct.{configuration_hash-byte}
use scada_guard.Config.Parse.{
  ReadLib, parse_agent, parse_logging, parse_local_api, parse_central_server, parse_discovery,
  parse_state_database, parse_array, parse_items, required, optional,
}
use scada_guard.Config.Parse.Checks.{parse_process, parse_source}
use scada_guard.Config.Parse.Whole.{
  read_config, parse_config, status_of, lacks_archive, accept_errors,
}
use scada_guard.Config.Parse.Accepted.{IsAccepted, parse_config-IsAccepted}
use scada_guard.Examples.Libs.{
  Doc, docs, whole, texts, obj, no_cell, field, cell, cells, txt, txt_of, num_of, flag, at_doc,
}

abbrev cells_of : Doc → List Doc
cells_of (cell d j) = d ∷ cells_of j
cells_of d = []

abbrev is_chain : Doc → Bool
is_chain (field j k v) = true
is_chain obj = true
is_chain d = false

abbrev is_list : Doc → Bool
is_list (cell d j) = true
is_list no_cell = true
is_list d = false

abbrev got : {A : Type 0} → Option A → Result A
got none = thrown "type_error"
got (some a) = returned a

abbrev flag_at : Doc → Option Bool
flag_at (flag b) = some b
flag_at d = none

abbrev reader : ReadLib Doc ℕ
reader = record {
  is_object = is_chain;
  is_array = is_list;
  elements = cells_of;
  get_string = λ j. got (txt_of j);
  get_strings = λ j. returned [];
  get_int = λ j. elim (num_of j) [ none ↦ thrown "type_error" | some n ↦ returned (pos n) ];
  get_size = λ j. got (num_of j);
  get_port = λ j. got (num_of j);
  get_flag = λ j. got (flag_at j);
  get_double = λ j. got (num_of j);
  get_doubles = λ j. returned [];
  value_error = "type_error";
  value_flag = λ j k d. elim (at_doc j k) [ none ↦ some d | some v ↦ flag_at v ];
  dump = λ j. returned (123 ∷ 125 ∷ []);
  literal = λ m n. m;
  log_directory = "C:\\ProgramData\\ScadaGuard\\logs";
  default_state_database = "C:\\ProgramData\\ScadaGuard\\state.db";
}

abbrev process_doc : String → Doc
process_doc id = field (field obj "id" (txt id)) "process_name" (txt "mplc.exe")

abbrev root : Doc
root =
    field
      (field obj "agent" (
        field (field (field obj "agent_id" (txt "agent")) "site_id" (txt "site")) "host_id"
          (txt "host")))
      "process_checks" (cells (process_doc "runtime" ∷ process_doc "driver" ∷ []))

abbrev accepted : Result (AppConfig Doc ℕ)
accepted = parse_config docs whole reader texts 7 root

accepted_run : (c : AppConfig Doc ℕ) × (accepted ≡ returned c)
unfolding parse_config read_config parse_agent parse_logging parse_local_api parse_central_server
    parse_discovery parse_state_database parse_array parse_items required optional parse_process
    parse_source accept_errors status_of lacks_archive validate_config general_errors check_errors
    signals_errors source_errors type_errors each_check central_errors
accepted_run = (_, refl)

parse_config-IsAccepted_example : IsAccepted docs whole reader texts 7 root accepted_run.0
parse_config-IsAccepted_example =
    parse_config-IsAccepted docs whole reader texts 7 root accepted_run.0 accepted_run.1

-- `[1]` and `[2]`.
configuration_hash-byte_example :
    configuration_hash ((91 ∷ []) ++ 49 ∷ 93 ∷ []) ≢ configuration_hash ((91 ∷ []) ++ 50 ∷ 93 ∷ [])
configuration_hash-byte_example =
    configuration_hash-byte 49 50 (91 ∷ []) (93 ∷ []) (omega arith) (omega arith) (omega arith, tt)
      (λ e. omega arith)
