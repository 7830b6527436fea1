-- ===== src/Script.antt =====
-- trikScriptRunner: how scripts run.
pub mod Threading
pub mod Runner
