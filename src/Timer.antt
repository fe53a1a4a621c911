-- ===== src/Timer.antt =====
-- src/timer: timers of an event loop.
pub mod TimerQueue
