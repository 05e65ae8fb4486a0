-- ===== src/Client.antt =====
-- The benchmark client: client/runner, client/grpc and client/main.go.
pub mod Errors
pub mod Metric
pub mod Lock
pub mod Kv
pub mod LoadDb
pub mod Step
pub mod Schedule
pub mod LoadStep
pub mod Program
pub mod Exporter
pub mod Logger
pub mod Pool
pub mod Server
pub mod Tests
