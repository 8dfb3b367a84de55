-- ===== src/Network.antt =====
-- The ingress of a node: src/network/buffer.rs and src/network/node.rs.
pub mod Buffer
pub mod Node
