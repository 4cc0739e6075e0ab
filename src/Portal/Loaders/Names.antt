-- ===== src/Portal/Loaders/Names.antt =====
-- The loaders by name: what the other functions of app.js call without awaiting it.
use the_black_hole.Portal.Task.{Task}
use the_black_hole.Portal.Loaders.Views.{load_dashboard_stats, load_connections, load_endpoints}
use the_black_hole.Portal.Loaders.Lists.{load_audit_logs, load_vault_secrets, load_client_tokens}
use the_black_hole.Portal.Loaders.Settings.{load_settings_config, load_openapi_docs}
use the_black_hole.Portal.Loaders.Telemetry.{load_telemetry}

pub data Loader : Type 0 where
  dashboard_stats connections endpoints audit_logs vault_secrets : Loader
  settings_config openapi_docs client_tokens telemetry : Loader

module _ {J : Type 0} where
  unfoldable pub body_of : Loader → Task J (Unit {0})
  body_of dashboard_stats = load_dashboard_stats
  body_of connections = load_connections
  body_of endpoints = load_endpoints
  body_of audit_logs = load_audit_logs
  body_of vault_secrets = load_vault_secrets
  body_of settings_config = load_settings_config
  body_of openapi_docs = load_openapi_docs
  body_of client_tokens = load_client_tokens
  body_of telemetry = load_telemetry
