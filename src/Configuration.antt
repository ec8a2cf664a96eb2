-- ===== src/Configuration.antt =====
-- configuration: settings, the overrides of projects, and what clients are shown of the secrets.
pub mod Types
pub mod Patch
pub mod Values
pub mod Shortcut
pub mod Launchers
pub mod Defaults
pub mod Parts
pub mod Merge
pub mod MergeLaws
pub mod Validate
pub mod Redact
pub mod Restore
pub mod Io
pub mod SandboxChange
pub mod Store
pub mod RoundTrip
pub mod Hiding
