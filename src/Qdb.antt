-- ===== src/Qdb.antt =====
-- core/qdb/: the database of unspent outputs.
-- `Store` is the key-value store that it is built on, `Spent` the records of the unwind data,
-- `Outputs` the outputs, `Unwind` the unwind data, and `Facade` the two together.
pub mod Store
pub mod Spent
pub mod Outputs
pub mod Unwind
pub mod Facade
mod Examples
