-- ===== src/Bridge.antt =====
-- server/src/connection/websocket.ts: the operations of a `GodotConnection`, each a function on its
-- state. A handler runs to its end before the next one.
pub mod Requests
pub mod Timers
pub mod Events
pub mod Steps
mod Entries
mod Ledger
mod Balance
mod Accounts
mod Replies
mod Alive
mod Closing
mod Refines
mod Tests
mod Links
mod Simulates
mod Handshakes
