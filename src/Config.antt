-- ===== src/Config.antt =====
-- pkg/protoc: the configuration of a package, from directives and from YAML.
pub mod Errors
pub mod Signs
pub mod Plugin
pub mod Rule
pub mod Language
pub mod Package
