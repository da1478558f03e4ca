-- ===== src/Protocol.antt =====
-- crates/protocol: the types that go over the network.
pub mod Workers
pub mod Requests
