-- ===== src/Detection.antt =====
-- engine/src/detection: the three detectors of a worker, and the sketches below them.
pub mod Hasher
pub mod CountMin
pub mod Float
pub mod HyperLogLog
pub mod Anomaly
pub mod Utf8
pub mod Cep
pub mod Signature
