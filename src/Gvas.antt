-- ===== src/Gvas.antt =====
-- sav-cli/internal/gvas: the decoder of Palworld's save data.
pub mod Value
pub mod Reader
pub mod Header
pub mod Parts
pub mod Group
pub mod Slots
pub mod Hints
pub mod Scalars
pub mod Properties
pub mod Decode
