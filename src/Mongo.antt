-- ===== src/Mongo.antt =====
-- The MongoDB driver, which the program calls and does not implement: its operations on a
-- collection are a record, and what the program relies on are the laws of a second one. A
-- collection is the list of its documents; a filter is a test and an update a function.
pub mod Driver
pub mod Reference
pub mod Counting
pub mod Keyed
