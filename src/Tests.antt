-- ===== src/Tests.antt =====
-- Tests, and each theorem at an input that meets its hypotheses, by component.
mod VmTests
mod ProcTests
mod TreeTests
mod FileTests
mod PathTests
mod RamfsTests
mod KshellTests
mod StringTests
mod PageTests
mod SlabTests
