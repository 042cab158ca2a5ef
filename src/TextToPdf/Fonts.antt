-- ===== src/TextToPdf/Fonts.antt =====
-- The packaged fonts of text_to_pdf.rs: the tables of a TrueType file, its names and its character
-- maps, and what a font must have to be approved.
pub mod Bytes
pub mod Sfnt
pub mod Names
pub mod Evidence
pub mod Cmap
pub mod Approved
pub mod Tables
pub mod Groups
mod Tests
