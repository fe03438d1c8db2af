-- ===== src/Graph.antt =====
-- Range nodes at read time, the questions that readers ask of them, and the walk over the graph, graph/.
pub mod Segments
pub mod Intervals
pub mod CoverIndex
pub mod Trace
pub mod Walk
pub mod Refs
pub mod RangeViews
mod Examples
mod TraceExamples
mod RangeExamples
