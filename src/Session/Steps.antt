-- ===== src/Session/Steps.antt =====
-- The methods of a session, composed once: a relation between states that every primitive method
-- keeps to, and that composes, holds of every method built from them. `complete_logon`, which
-- enters the state `logged_on`, and the receipt of a Logon are left to the clients.
mod Kept
mod Replies
mod Validate
mod Process
pub use Kept.*
pub use Replies.*
pub use Validate.*
pub use Process.*
