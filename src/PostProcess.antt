-- ===== src/PostProcess.antt =====
-- `log_gen`, `timeseries_gen` and `timeseries_persupernode` (data_post_process.py).
pub mod Log
pub mod Series
pub mod Supernodes
