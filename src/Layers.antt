-- ===== src/Layers.antt =====
-- The semantic memory-layer policy, src/echo_veil/memory_layers.py.
pub mod Words
pub mod Validate
pub mod Contract
pub mod Moves
pub mod Decode
pub mod Clean
pub mod Form
pub mod Inversion
pub mod Issued
pub mod Reach
pub mod Window
pub mod Steps
pub mod Roundtrip
mod Tests
