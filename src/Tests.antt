-- ===== src/Tests.antt =====
-- Runs of the model at small inputs, and each theorem applied to one.
mod Keys
mod Actions
mod Sagas
mod Workflows
mod Services
mod Clouds
mod Accounts
mod Events
mod Alerts
