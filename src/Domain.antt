-- ===== src/Domain.antt =====
-- The aggregates of internal/domain, one module per package.
pub mod Cluster
pub mod Machine
pub mod Operation
pub mod Workflow
pub mod Audit
pub mod User
pub mod GitOps
pub mod Tenancy
