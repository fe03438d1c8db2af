-- ===== src/Excel.antt =====
-- excel/: spreadsheet addresses, and the checks on a workbook's archive.
pub mod Columns
pub mod Addresses
pub mod Examples
pub mod ZipGuard
pub mod Ole2
mod ZipExamples
mod Ole2Examples
