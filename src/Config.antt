-- ===== src/Config.antt =====
-- src/config.rs: the configuration, from the parsers of its values to its validation and the
-- expansion of its placeholders. Reading TOML, which fills the records, is serde's and toml's.
pub mod Parse
pub mod Placeholders
pub mod Security
pub mod Types
pub mod Validate
pub mod Resolve
