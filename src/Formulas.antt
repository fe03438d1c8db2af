-- ===== src/Formulas.antt =====
-- formulas/: the parser, row runs, range nodes and the index of known cells.
pub mod Syntax
pub mod Characters
pub mod References
pub mod Scan
pub mod Tokenizer
pub mod Shift
pub mod Template
pub mod Edges
pub mod Engine
pub mod Parser
pub mod Spans
pub mod RunTables
pub mod Usage
pub mod RangeNodes
pub mod Known
pub mod Examples
mod ParserExamples
mod ScanExamples
mod EngineExamples
mod UsageExamples
