-- ===== src/Dispatcher.antt =====
-- The dispatcher (dispatcher/internal): attempts to pay out, slots, entering dispatching, settling.
pub mod Answer
pub mod Attempts
pub mod Broadcast
pub mod Slots
pub mod States
pub mod Entering
pub mod Settling
mod Tests
