-- ===== src/Sessions/Runner/Lossless.antt =====
-- What a runner of src/sessions/resume.ts passes on when its process is closed while it is not paused.
mod Shown
mod Emits
mod Drained
mod Mid
mod Resumed
mod Quiet
mod Fed
pub mod Run
unfoldable pub use Shown.{called, text_events}
pub use Shown.{called-append}
