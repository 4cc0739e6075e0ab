-- ===== src/Portal.antt =====
-- The portal's frontend, pkg/portal/static/app.js.
pub mod Types
pub mod World
pub mod Task
pub mod Page
pub mod Keeps
pub mod Html
pub mod Uri
pub mod Loaders
pub mod Router
pub mod Session
pub mod Forms
pub mod Dialogs
pub mod Search
pub mod Loop
mod Samples
mod Tests
