-- ===== src/Workers.antt =====
-- The worker processes: their names, the evidence of their containment, the tables that record
-- them, the recovery that ends them and the supervisor that watches them.
pub mod Names
pub mod Containment
pub mod Registry
pub mod Termination
pub mod Attachments
