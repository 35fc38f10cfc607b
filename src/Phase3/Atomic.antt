-- ===== src/Phase3/Atomic.antt =====
-- phase3/atomicApply.ts: the replacement of a file by a native helper. `Frame` is what the helper
-- prints, `Classify` what its end says of the commit, `Pool` who may run it, `Runner` how its
-- process is watched, and `Replace` the port that the coordinator calls.
pub mod Frame
pub mod Classify
pub mod Pool
pub mod Runner
pub mod Replace
