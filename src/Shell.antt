-- ===== src/Shell.antt =====
-- client_shell.py: the parts of the client's shell that are about its input.
pub mod InputFilter
pub mod LinemodeBuffer
