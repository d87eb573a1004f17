-- ===== src/Gateway.antt =====
-- The in-process gateway of packages/gateway/src (`inline*.ts`): one store per kind of entity, and
-- the client that joins them.
pub mod Effects
pub mod Types
pub mod Logs
pub mod Workers
pub mod Services
pub mod Mailboxes
pub mod Events
pub mod Tables
pub mod Registry
pub mod Sandboxes
pub mod Agents
pub mod JobHelpers
pub mod Jobs
pub mod Client
pub mod Filters
pub mod World
pub mod Query
