-- ===== src/Samples.antt =====
-- Concrete runs: instances of the interfaces, tests, and the theorems at these inputs.
pub mod Arrays
pub mod Batches
pub mod Dumps
pub mod Plans
pub mod Resumes
pub mod Preparations
pub mod Runs
pub mod Partners
pub mod Recordings
pub mod Audits
pub mod Builders
