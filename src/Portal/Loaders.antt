-- ===== src/Portal/Loaders.antt =====
-- The asynchronous functions of pkg/portal/static/app.js that load a view. None calls another one.
pub mod Common
pub mod Stats
pub mod Conflicts
pub mod Views
pub mod Lists
pub mod Settings
pub mod Charts
pub mod Telemetry
pub mod Names
