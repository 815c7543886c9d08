-- ===== src/Provisioning/Steps/Ready.antt =====
-- How a provisioning of internal/workflows/cluster_provision.go ends where nothing fails: the invariant of
-- its steps over the tables, the systems outside, and the run.
pub mod Tables
pub mod Outside
pub mod Requests
pub mod Observed
pub mod Leads
pub mod Run
pub mod Request
