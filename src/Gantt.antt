-- ===== src/Gantt.antt =====
-- The Gantt view of a project's tasks: web/src/tasks/types.ts and web/src/tasks/gantt/ganttMath.ts and
-- useGanttDrag.ts. Dates are texts in the tasks and day numbers (Dates) in the geometry.
pub mod Tasks
pub mod Scale
pub mod Pixels
pub mod Rows
pub mod Drag
mod Tests
