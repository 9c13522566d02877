-- ===== src/Plugins.antt =====
-- plugins/: the plugins that bring endpoints of their own.
pub mod Context
pub mod EmailPassword
pub mod OAuth
pub mod Requests
pub mod GitHub
pub mod Google
pub mod FactorRows
pub mod TwoFactor
