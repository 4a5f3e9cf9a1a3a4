-- ===== src/Worker.antt =====
-- worker.go
pub mod Ancestry
pub mod Errors
pub mod Layers
pub mod Process
