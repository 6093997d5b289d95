-- ===== src/Types.antt =====
-- Data types of ui/src/types.ts and of the schemas in ui/src/types/api.gen.ts.
-- An optional property is an `Option`.
pub mod Session
pub mod Introspection
pub mod Create
pub mod Api
