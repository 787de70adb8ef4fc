-- ===== src/Paged.antt =====
-- native/paged_memory.h: the guest address space `PagedMemory`.
pub mod Table
pub mod Memory
pub mod Word
pub mod Access
pub mod Step
pub mod WriteAll
pub mod Fill
pub mod Pages
pub mod ZeroRange
pub mod Copy
pub mod Trim
mod Tests
