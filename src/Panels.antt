-- ===== src/Panels.antt =====
-- What the panels of the viewer compute before they draw (viewer/src/panels). The widgets are calls
-- of ImGui and ImPlot.
pub mod Pie
pub mod Guilty
pub mod Filters
pub mod Charts
pub mod Details
pub mod Parts
pub mod Samples
pub mod Shown
pub mod Replaced
pub mod Sorting
pub mod StatusBar
pub mod Timeline
mod Tests
