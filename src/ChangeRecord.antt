-- ===== src/ChangeRecord.antt =====
-- The change requests of change_record.py.
pub mod Notes
pub mod Names
pub mod NotesLaws
pub mod Register
pub mod RegisterLaws
pub mod Again
pub mod Once
