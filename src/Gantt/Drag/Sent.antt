-- ===== src/Gantt/Drag/Sent.antt =====
-- What a drag sends and what it writes to the cache meanwhile, for web/src/tasks/gantt/useGanttDrag.ts.
