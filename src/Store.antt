-- ===== src/Store.antt =====
-- The store of implementation progress (.codex/hooks/shared/implementation_store/).
pub mod Checked
pub mod Fields
pub mod State
pub mod Validate
pub mod Event
pub mod Record
pub mod Journal
pub mod Reads
pub mod Update
pub mod Build
pub mod Values
pub mod Chain
pub mod Patch
pub mod Cursor
pub mod Advance
pub mod Recovery
pub mod Reconcile
pub mod Manifest
pub mod Pointers
pub mod Discovery
pub mod Files
pub mod Disk
pub mod RecordEvent
pub mod Growth
pub mod Journaling
pub mod Success
pub mod Tests
pub mod Emission
pub mod Fixed
pub mod Claims
pub mod Once
pub mod Reread
pub mod Repeat
pub mod OnceTests
