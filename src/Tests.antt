-- ===== src/Tests.antt =====
-- Concrete data, and the theorems applied to it.
pub mod Sample
pub mod SampleFiles
pub mod TableExamples
pub mod NameExamples
pub mod AppendExamples
pub mod EntryExamples
pub mod OtherExamples
pub mod FileExamples
pub mod MapSample
pub mod MapExamples
