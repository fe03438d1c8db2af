-- ===== src/Jobs.antt =====
-- The job bus of the API process, and the worker that runs a job in a child process.
pub mod Bus
pub mod Child
pub mod Worker
pub mod Horse
mod Examples
mod WorkerExamples
