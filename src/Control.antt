-- ===== src/Control.antt =====
-- src/combined.c: the service that reads the heartbeats of one application and steers its cores and
-- their frequencies. A child for the actuators, one for each group of decision functions, one for
-- the machine speed actuator, and one for the loop of `main`.
pub mod Outcome
pub mod Actuators
pub mod Heuristics
pub mod Controllers
pub mod Speed
pub mod Loop
pub mod Start
pub mod Options
pub mod Apps
pub mod Main
mod Tests
