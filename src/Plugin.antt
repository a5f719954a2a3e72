-- ===== src/Plugin.antt =====
-- The Clang plugin, plugin/: what it collects from a translation unit, and the text that it writes.
pub mod Int
pub mod Clang
pub mod Types
pub mod Field
pub mod Visitor
pub mod Visit
pub mod Serializer
pub mod Consumer
pub mod Action
