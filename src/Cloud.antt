-- ===== src/Cloud.antt =====
-- apps/api/src: the cloud service, which keeps the actions of many organisations behind HTTP.
pub mod Errors
pub mod Actions
pub mod Table
pub mod Lifecycle
pub mod Requests
pub mod Text
pub mod Access
pub mod Pages
