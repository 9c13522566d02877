-- ===== src/Sql.antt =====
-- What the SQL adapters share.
pub mod Text
pub mod Build
pub mod Driver
pub mod Postgres
pub mod Mysql
pub mod Sqlite
pub mod Mssql
pub mod Blank
pub mod Agree
pub mod Outcomes
pub mod Supported
pub mod Digits
pub mod Numbered
pub mod Statements
