-- ===== src/Store.antt =====
-- The database that the server's modules share: its rows, its tables and the handlers' monad.
pub mod Rows
pub mod CertRows
pub mod MatchRows
pub mod Table
pub mod Db
