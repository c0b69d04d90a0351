-- ===== src/Tests.antt =====
-- Test data, runs at concrete inputs, and the theorems applied to concrete inputs.
mod Data
mod RecvRuns
mod RecvWitnesses
mod SendWitnesses
mod PoolWitnesses
mod ServerWitnesses
mod SystemWitnesses
mod ReachWitnesses
mod UtilWitnesses
mod UploadWitnesses
mod SessionWitnesses
mod PutWitnesses
mod SetupWitnesses
