-- ===== src/Tests.antt =====
-- Runs of the theorems at concrete inputs.
mod World
mod Memory
mod Internal
mod Session
mod Sql
mod Factory
mod Tenant
mod GitHub
mod Google
mod Auth
mod Middleware
mod Plugin
mod Plugins
mod Instance
mod Crypto
mod Stores
