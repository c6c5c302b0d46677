-- ===== src/Qq.antt =====
-- internal/tool/qq: the tools that read and send QQ messages.
pub mod Getter
pub mod Sender
mod Tests
