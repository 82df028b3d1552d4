-- ===== src/Examples.antt =====
-- Runs of the model on a small compositor, and instances of the theorems there.
pub mod World
mod Maps
mod TagRuns
mod InputRuns
mod QueueRuns
mod DiffRuns
pub mod LayoutRuns
mod PlacingRuns
mod FocusRuns
mod ModeRuns
mod RuleRuns
mod GrabRuns
mod DirectionRuns
