-- ===== src/Config.antt =====
-- internal/config: the layers of the configuration, the tree they merge into and where each value came from.
pub mod Value
pub mod Tree
pub mod Document
pub mod Setting
pub mod Layers
pub mod Bundle
pub mod Resolve
pub mod Merging
pub mod Origins
pub mod Invariant
pub mod Overriding
pub mod Command
pub mod Given
