-- ===== src/Tests.antt =====
-- Runs of the definitions on concrete inputs, and the theorems applied to some.
pub mod Examples
pub mod Rules
pub mod Overrides
pub mod Durations
pub mod Requests
pub mod Failing
pub mod Watching
pub mod TwoNamespaces
pub mod RulerListing
pub mod RulerLaws
pub mod Syncing
pub mod Ranges
pub mod OneObject
pub mod OneConfig
pub mod Sent
pub mod Again
pub mod Living
pub mod Tracking
pub mod Configs
pub mod ConfigLiving
pub mod Finalizers
pub mod Reconciling
pub mod Reporting
