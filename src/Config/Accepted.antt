-- ===== src/Config/Accepted.antt =====
-- What an accepted configuration means for the central reporter.
use scada_guard.Prelude.{true, some, [], ◌≡◌, arith}
use scada_guard.Model.{JsonLib}
use scada_guard.Quality.Real.{RealLib}
use scada_guard.Checks.{TextLib}
use scada_guard.Storage.Queue.{Queue}
use scada_guard.Reporter.{CentralServerConfig, Reporter, http_central_reporter}
use scada_guard.Config.{
  AppConfig, central_errors, agent_errors, logging_errors, local_api_errors, discovery_errors,
}
use scada_guard.Config.Validate.{validate_config, general_errors}
use scada_guard.Config.Ids.{append_empty, validate_config-parts}

central_errors-secure :
    {J : Type 0} (c : CentralServerConfig) (q : Queue J)
    → central_errors c ≡ []
    → c.enabled ≡ true
    → (r : Reporter J) × (http_central_reporter c q ≡ some r)
unfolding central_errors http_central_reporter
central_errors-secure c q h on =
    (record { config = c; queue = q; retry_attempt = 0; next_retry = 0 }, ground arith)

module _ {J R : Type 0} (json : JsonLib J) (real : RealLib J R) (text_lib : TextLib) where
  -- For an accepted configuration whose central server is enabled the constructor of the reporter does
  -- not throw.
  pub validate_config-http_central_reporter :
      (c : AppConfig J R) (q : Queue J)
      → validate_config json real text_lib c ≡ some []
      → c.central_server.enabled ≡ true
      → (r : Reporter J) × (http_central_reporter c.central_server q ≡ some r)
  unfolding general_errors
  validate_config-http_central_reporter c q h on =
      let general = (validate_config-parts json real text_lib c h).0 in
      let (a, rest) = append_empty (agent_errors c.agent) _ general in
      let (b, rest') = append_empty (logging_errors c.logging) _ rest in
      let (d, rest'') = append_empty (local_api_errors c.local_api) _ rest' in
      let (central, e) =
        append_empty (central_errors c.central_server) (discovery_errors c.discovery) rest'' in
      central_errors-secure c.central_server q central on
