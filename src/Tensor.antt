-- ===== src/Tensor.antt =====
-- crates/nr-tensor: the pool of workers.
pub mod Pool
