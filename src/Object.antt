-- ===== src/Object.antt =====
-- src/store/object.c: the names, signatures and lookups of the object store.
pub mod Identifier
pub mod Lookup
pub mod Sig
pub mod Ownership
pub mod Lifecycle
pub mod Overload
pub mod References
pub mod Scopes
pub mod Declaration
pub mod Path
