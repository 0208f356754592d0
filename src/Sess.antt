-- ===== src/Sess.antt =====
-- src/sessionmgr/sessionmgr.c: the throttle of authentications, the suspended sessions, the
-- reading of requests, and the requests of one client.
pub mod Throttle
mod Limit
pub mod Slots
mod Descriptors
mod Granted
mod Tests
mod Return
pub mod Requests
mod Checked
pub mod Client
mod Runs
mod Ledger
mod Ownership
mod Settled
mod Access
mod Admission
