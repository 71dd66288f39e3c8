-- ===== src/Plans.antt =====
-- orchestration.py: `DurablePlanGraphService`, the plans whose tasks wait for one another. The tables
-- orchestration_plans, _tasks and _dependencies are one dict of plans, each with its tasks in the order
-- of their ids and its dependencies; what the triggers of the migrations 0035 and 0075 refuse is an
-- integrity error, and a call that fails leaves the database as it was. Times are in microseconds.
pub mod Tasks
pub mod Graph
pub mod Service
