-- ===== src/Supervisor.antt =====
-- src/basler/ConnectionSupervisor.cpp: the cameras of one Basler source, opened, held under manual
-- control, dropped and connected again. A device is what the supervisor last wrote to it by hand; what
-- the camera SDK answers to an attempt comes as a value. Times are seconds. The maps under the three
-- mutexes are one state, which each function changes as its critical sections do together.
pub mod Maps
pub mod Lifecycle
pub mod Manual
pub mod Events
pub mod Frame
pub mod Held
pub mod Opened
pub mod Reconnect
pub mod Sought
pub mod Backoff
pub mod Bandwidth
pub mod Roi
mod Tests
