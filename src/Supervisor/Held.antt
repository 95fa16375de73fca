-- ===== src/Supervisor/Held.antt =====
-- An exposure set by hand outlives the connections of its camera.
use lpr_refactored.Supervisor.Maps.{Supervisor}
