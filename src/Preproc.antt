-- ===== src/Preproc.antt =====
-- internal/preproc: a notebook block becomes the source of a Go plugin.
pub mod Tools
pub mod Block
pub mod LineType
pub mod Scan
pub mod BaseCopypaste
pub mod Imports
pub mod Export
