-- ===== src/Discovery/Fresh.antt =====
-- The first part of a scan counts nothing and reports no file.
use scada_guard.Prelude.{ℕ, String, List, [], ◌∷◌, ◌≡◌, refl, if_rule}
use scada_guard.Model.{JsonLib}
use scada_guard.Checks.{TextLib}
use scada_guard.Discovery.{
  DiscoveryHints, DiscoverySelection, DiscoveryReport, DiscoveryEnvironment, PathLib,
  ProcessDiscoveryRecord, ServiceDiscoveryRecord, InstalledApplicationRecord,
}
use scada_guard.Discovery.Names.{Scored}
use scada_guard.Discovery.Roots.{
  Found, find_roots, each, process_found, service_found, application_found, add_component,
  add_process, add_service, add_application, note_version,
}
use scada_guard.Discovery.Select.{blank_report, found_at}

-- Nothing is scanned yet.
pub record IsFresh {J : Type 0} (r : DiscoveryReport J) : Type 0 where
  pub directories : r.scanned_directories ≡ 0
  pub files : r.scanned_files ≡ 0
  pub logs : r.log_candidates ≡ []
  pub archives : r.archive_candidates ≡ []

module _ {J : Type 0} (paths : PathLib) (json : JsonLib J) (text_lib : TextLib)
    (hints : DiscoveryHints) where
  each-IsFresh :
      {A : Type 0} (step : A → Found J → Found J)
      → ((a : A) (found : Found J) → IsFresh found.report → IsFresh (step a found).report)
      → (items : List A) (found : Found J) → IsFresh found.report
      → IsFresh (each paths json text_lib hints step items found).report
  unfolding each
  each-IsFresh step keep [] found h = h
  each-IsFresh step keep (a ∷ rest) found h =
      each-IsFresh step keep rest (step a found) (keep a found h)

  -- A component changes none of these fields.
  add_component-IsFresh :
      (id type path : String) (what : Scored) (details : J) (r : DiscoveryReport J)
      → IsFresh r
      → IsFresh (add_component paths json text_lib hints id type path what details r)
  unfolding add_component
  add_component-IsFresh id type path what details r h = record {
    directories = h.directories;
    files = h.files;
    logs = h.logs;
    archives = h.archives;
  }

  note_version-IsFresh :
      (version : String) (r : DiscoveryReport J)
      → IsFresh r
      → IsFresh (note_version paths json text_lib hints version r)
  unfolding note_version
  note_version-IsFresh version r h =
      if_rule IsFresh _ (record r { version = version }) r
        (λ e. record {
          directories = h.directories;
          files = h.files;
          logs = h.logs;
          archives = h.archives;
        })
        (λ e. h)

  process_found-IsFresh :
      (process : ProcessDiscoveryRecord) (found : Found J)
      → IsFresh found.report
      → IsFresh (process_found paths json text_lib hints process found).report
  unfolding process_found add_process
  process_found-IsFresh process found h =
      if_rule (λ after. IsFresh after.report) _
        (add_process paths json text_lib hints process found) found
        (λ e. note_version-IsFresh _ _ (add_component-IsFresh _ _ _ _ _ found.report h)) (λ e. h)

  service_found-IsFresh :
      (service : ServiceDiscoveryRecord) (found : Found J)
      → IsFresh found.report
      → IsFresh (service_found paths json text_lib hints service found).report
  unfolding service_found add_service
  service_found-IsFresh service found h =
      if_rule (λ after. IsFresh after.report) _
        (add_service paths json text_lib hints service found) found
        (λ e. add_component-IsFresh _ _ _ _ _ found.report h) (λ e. h)

  application_found-IsFresh :
      (application : InstalledApplicationRecord) (found : Found J)
      → IsFresh found.report
      → IsFresh (application_found paths json text_lib hints application found).report
  unfolding application_found add_application
  application_found-IsFresh application found h =
      if_rule (λ after. IsFresh after.report) _
        (add_application paths json text_lib hints application found) found
        (λ e. note_version-IsFresh _ _ (add_component-IsFresh _ _ _ _ _ found.report h)) (λ e. h)

  module _ (environment : DiscoveryEnvironment J) (selection : DiscoverySelection) where
    pub found_at-IsFresh :
        (scan_id : String) (scanned_at : ℕ)
        → IsFresh
            (found_at paths json text_lib hints environment selection scan_id scanned_at).report
    unfolding found_at find_roots blank_report
    found_at-IsFresh scan_id scanned_at =
        each-IsFresh (application_found paths json text_lib hints) application_found-IsFresh
          environment.installed_applications _
          (each-IsFresh (service_found paths json text_lib hints) service_found-IsFresh
            environment.services _
            (each-IsFresh (process_found paths json text_lib hints) process_found-IsFresh
              environment.processes _
              (record { directories = refl; files = refl; logs = refl; archives = refl })))
