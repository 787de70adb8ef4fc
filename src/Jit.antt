-- ===== src/Jit.antt =====
-- native/bap_jit.cpp: what runs compiled blocks, and what they call.
pub mod Filter
pub mod StoreLog
pub mod Access
pub mod Op
pub mod Compile
pub mod Live
pub mod Bytes
pub mod Object
pub mod Chain
pub mod Runs
pub mod Fast
pub mod Notify
mod Tests
