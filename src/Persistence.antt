-- ===== src/Persistence.antt =====
-- platform/crates/persistence/src/lib.rs, the store in memory: `InMemorySessionStore`. A map that
-- is only looked up by its keys is a `BTreeMap` here, whatever the order of the code's `HashMap`.
pub mod Leases
pub mod Connections
pub mod Listing
