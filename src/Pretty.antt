-- ===== src/Pretty.antt =====
-- fpp_format/src/doc.rs: the documents of the pretty printer and their renderer.
pub mod Doc
pub mod Fits
pub mod FirstLine
pub mod Render
pub mod Layout
pub mod Lines
pub mod Positions
pub mod Align
pub mod Finish
pub mod Solid
pub mod Newline
