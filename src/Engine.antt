-- ===== src/Engine.antt =====
-- src/agent-runtime/engine: workflow runs.
pub mod Contracts
pub mod Budget
pub mod BudgetLimits
pub mod Gate
pub mod Permits
pub mod Arrivals
pub mod Database
pub mod Lease
pub mod LeaseSteps
pub mod Fencing
pub mod ActiveTime
pub mod Inbox
pub mod Consumption
pub mod Delivery
pub mod InboxBounds
pub mod Retries
mod Examples
mod RunExamples
