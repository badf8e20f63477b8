-- ===== src/Session.antt =====
-- libcrocofix/session.cppm, session.cpp, session_options.cppm, session_state.cppm, session_state.cpp
-- and behaviour.cppm: the FIX session. Each method of the C++ class is a method of the same name.
pub mod State
pub mod Send
pub mod Replies
pub mod Validate
pub mod Process
pub mod Handler
pub mod Steps
pub mod Frame
pub mod LoggedOn
mod Transitions
mod Recovery
mod Handshake
pub mod Delivery
pub mod Numbers
pub mod Refusal
mod Examples
