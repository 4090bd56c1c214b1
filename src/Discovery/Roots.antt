-- ===== src/Discovery/Roots.antt =====
-- The first part of `MasterScadaDiscovery::scan`: the processes, services and applications that
-- name the product, and the directories from which the search starts.
use scada_guard.Prelude.{
  ℕ, ◌+◌, String, not, ◌&&◌, none, some, List, [], ◌∷◌, ◌++◌, Map, lookup, insert, if◌then◌else◌,
}
use scada_guard.Model.{JsonLib}
use scada_guard.Checks.{TextLib, ◌<>◌}
use scada_guard.Discovery.{
  DiscoveryHints, ProcessDiscoveryRecord, ServiceDiscoveryRecord, InstalledApplicationRecord,
  DiscoverySelection, DiscoveryReport, PathLib, DiscoveryEnvironment,
}
use scada_guard.Discovery.Names.{
  is_empty, append_unique, Scored, scored, contains_keyword, path_key, restricted_root, component,
}

pub record RootCandidate : Type 0 where
  pub path : String
  pub score : ℕ
  pub evidence : List String

-- What the first part of a scan has found so far.
pub record Found (J : Type 0) : Type 0 where
  pub report : DiscoveryReport J
  pub roots : Map RootCandidate

abbrev fresh_root : RootCandidate
fresh_root = record { path = ""; score = 0; evidence = [] }

abbrev candidate_at : String → Map RootCandidate → RootCandidate
candidate_at key roots = elim (lookup key roots) [ none ↦ fresh_root | some candidate ↦ candidate ]

module _ (paths : PathLib) where
  open paths use {lexically_normal, parent_path}

  unfoldable pub add_root : String → ℕ → String → Map RootCandidate → Map RootCandidate
  unfolding append_unique
  add_root path score evidence roots =
      let key = path_key paths path in
      let candidate = candidate_at key roots in
      let raised : RootCandidate = record {
        path = if is_empty candidate.path then lexically_normal path else candidate.path;
        score = candidate.score + score;
        evidence = append_unique candidate.evidence evidence;
      } in
      if is_empty path then roots else insert key raised roots

  -- One `add_root` for each path of a list.
  add_roots : List String → ℕ → String → Map RootCandidate → Map RootCandidate
  add_roots [] score evidence roots = roots
  add_roots (path ∷ others) score evidence roots =
      add_roots others score evidence (add_root path score evidence roots)

  unfoldable pub selection_root : DiscoverySelection → Map RootCandidate → Map RootCandidate
  selection_root selection roots = elim selection.confirmed_archive [
    | some path ↦ add_root (parent_path path) 100 "administrator confirmed archive location" roots
    | none ↦ elim selection.configured_archive [
      | some path ↦ add_root (parent_path path) 60 "explicit local archive configuration" roots
      | none ↦ roots
    ]
  ]

  -- The queue of the directories to scan, with their depth, and the warnings about the others.
  unfoldable pub pending_roots : List RootCandidate → List String → List (String × ℕ) × List String
  pending_roots [] warnings = ([], warnings)
  pending_roots (root ∷ others) warnings =
      let refused =
        pending_roots others
          (warnings ++ ("unsafe discovery root was rejected: " <> root.path) ∷ []) in
      let taken = pending_roots others warnings in
      if restricted_root paths root.path then refused else ((root.path, 0) ∷ taken.0, taken.1)

  module _ {J : Type 0} (json : JsonLib J) (text_lib : TextLib) (hints : DiscoveryHints) where
    open json use {object, text, number, put}
    open text_lib use {decimal}

    unfoldable pub add_component :
        String → String → String → Scored → J → DiscoveryReport J → DiscoveryReport J
    unfolding component
    add_component id type path (score, evidence) details report = record report {
      components = report.components ++ component id type path score evidence details ∷ [];
    }

    unfoldable pub note_version : String → DiscoveryReport J → DiscoveryReport J
    note_version version report =
        if is_empty report.version && not (is_empty version)
        then record report { version = version }
        else report

    unfoldable pub add_process : ProcessDiscoveryRecord → Found J → Found J
    unfolding scored
    add_process process found =
        let maker = process.company <> " " <> process.product in
        let (score, evidence) =
          scored (contains_keyword paths maker hints) 50 "executable company/product metadata"
            (30, "running process" ∷ []) in
        let details =
          put
            (put
              (put
                (put
                  (put
                    (put (put object "pid" (number process.pid)) "parent_pid"
                      (number process.parent_pid))
                    "name" (text process.name))
                  "architecture" (text process.architecture))
                "version" (text process.version))
              "company" (text process.company))
            "product" (text process.product) in
        record {
          report = note_version process.version (
              add_component ("process:" <> decimal process.pid) "process" process.executable_path
                (score, evidence) details found.report);
          roots =
              add_root (parent_path process.executable_path) score "running process executable"
                found.roots;
        }

    unfoldable pub process_found : ProcessDiscoveryRecord → Found J → Found J
    unfolding add_process
    process_found process found =
        let maker = process.company <> " " <> process.product in
        let description = process.name <> " " <> process.executable_path <> " " <> maker in
        if contains_keyword paths description hints then add_process process found else found

    unfoldable pub add_service : ServiceDiscoveryRecord → Found J → Found J
    add_service service found =
        let details =
          put
            (put
              (put
                (put
                  (put (put object "service_name" (text service.name)) "display_name"
                    (text service.display_name))
                  "state" (text service.state))
                "start_type" (text service.start_type))
              "account" (text service.account))
            "pid" (number service.pid) in
        record {
          report =
              add_component ("service:" <> service.name) "service" service.executable_path
                (45, "Windows Service binary path" ∷ []) details found.report;
          roots =
              add_root (parent_path service.executable_path) 45 "Windows Service binary path"
                found.roots;
        }

    unfoldable pub service_found : ServiceDiscoveryRecord → Found J → Found J
    unfolding add_service
    service_found service found =
        let description =
          service.name <> " " <> service.display_name <> " " <> service.executable_path in
        if contains_keyword paths description hints then add_service service found else found

    unfoldable pub add_application : InstalledApplicationRecord → Found J → Found J
    add_application application found =
        let score = if contains_keyword paths application.publisher hints then 40 else 25 in
        let details =
          put
            (put (put object "display_name" (text application.display_name)) "display_version"
              (text application.display_version))
            "publisher" (text application.publisher) in
        record {
          report = note_version application.display_version (
              add_component ("registry:" <> application.display_name) "installed_application"
                application.install_location (score, "Windows installed applications registry" ∷ [])
                details found.report);
          roots =
              add_root application.install_location score "registry InstallLocation" found.roots;
        }

    unfoldable pub application_found : InstalledApplicationRecord → Found J → Found J
    unfolding add_application
    application_found application found =
        let description =
          application.display_name <> " " <> application.publisher <> " "
          <> application.install_location in
        if contains_keyword paths description hints
        then add_application application found
        else found

    unfoldable pub each : {A : Type 0} → (A → Found J → Found J) → List A → Found J → Found J
    each step [] found = found
    each step (a ∷ rest) found = each step rest (step a found)

    -- `scan` up to the loop over the directories.
    unfoldable pub find_roots :
        DiscoveryEnvironment J → DiscoverySelection → DiscoveryReport J → Found J
    unfolding add_roots each selection_root process_found service_found application_found
    find_roots environment selection report =
        let found = each application_found environment.installed_applications (
          each service_found environment.services
            (each process_found environment.processes (record { report = report; roots = [] }))) in
        record found {
          roots = selection_root selection (
              add_roots hints.additional_roots 20 "explicit additional discovery root" (
                add_roots environment.standard_roots 10 "known MPSSoft directory hint"
                  found.roots));
        }
