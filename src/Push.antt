-- ===== src/Push.antt =====
-- internal/app/push: executing a plan in one transaction.
pub mod Session
pub mod Answer
pub mod Execute
pub mod Protocol
pub mod Transaction
pub mod Guard
