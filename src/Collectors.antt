-- ===== src/Collectors.antt =====
-- src/collectors: what the machine is asked, and what is made of the answers.
pub mod Docker
pub mod Systemd
pub mod Pm2
pub mod System
mod Tests
