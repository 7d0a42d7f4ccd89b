-- ===== src/Database.antt =====
-- snakelab/database: the persistent store in SQL.
pub mod Statements
pub mod DbMgr
pub mod SnakeDb
