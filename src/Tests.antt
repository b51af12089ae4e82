-- ===== src/Tests.antt =====
-- Concrete runs of the models, and the theorems at concrete inputs.
mod Bump
mod HashtableTests
mod RbtreeTests
mod RemovalTests
mod MacrosTests
mod ArrayTests
mod PallocTests
