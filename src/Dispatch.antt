-- ===== src/Dispatch.antt =====
-- Opcode dispatch (src/z80_python/_dispatch.py and src/z80_python/_index_dispatch.py).
pub mod Method
pub mod Page
pub mod Rules
pub mod Pages
pub mod Execute
