-- ===== src/TextToPdf.antt =====
-- apps/desktop/src-tauri/src/text_to_pdf.rs: what a text must be to be converted, its HTML, and the
-- tables of the packaged fonts.
pub mod Errors
pub mod Characters
pub mod Joiners
pub mod Lines
pub mod Preflight
mod Cache
pub mod Admission
pub mod Accepted
pub mod Clusters
pub mod LineEnds
pub mod Html
pub mod Escaping
pub mod Sizes
mod Tests
pub mod Fonts
