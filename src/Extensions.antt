-- ===== src/Extensions.antt =====
-- extensions: what is kept of an extension's error output.
pub mod Buffer
pub mod Kept
