-- ===== src/Editor.antt =====
-- kernel/editor: the text editor.
pub mod Text
pub mod Draw
pub mod Session
