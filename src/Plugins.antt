-- ===== src/Plugins.antt =====
-- The plugins of sysmodule/src/plugins, each with its own state.
pub mod Volume
pub mod Mpris
pub mod Mousepad
pub mod Battery
pub mod Notifications
pub mod Share
pub mod RunCommand
pub mod Ping
pub mod Registry
