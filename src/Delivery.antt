-- ===== src/Delivery.antt =====
-- What becomes of a message between the process that sends it and the one that receives it
-- (src/mailbox.rs, src/process.rs, src/request.rs), over a runtime that keeps to its interface.
pub mod Runtime
pub mod Codec
pub mod Handles
pub mod Requests
pub mod Sending
pub mod Serving
pub mod Replies
pub mod Starting
pub mod Contexts
pub mod Order
