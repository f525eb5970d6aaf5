-- ===== src/Render.antt =====
-- go/internal/render: the interpreter of the page templates.
pub mod Lex
pub mod Words
pub mod Parse
mod Tests
