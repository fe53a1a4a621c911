-- ===== src/Mysql.antt =====
-- src/mysql: the client side of the database.
pub mod ConnectionPool
