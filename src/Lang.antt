-- ===== src/Lang.antt =====
-- The type system: the classes under src/lang.
pub mod Kinds
pub mod Layout
pub mod Primitive
pub mod Delegates
pub mod Constants
pub mod Vtable
pub mod Methods
pub mod Classes
pub mod Collections
pub mod Instances
