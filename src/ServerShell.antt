-- ===== src/ServerShell.antt =====
-- server_shell.py: the shell that the server offers by default.
pub mod Escapes
pub mod LineEditor
pub mod Readline
