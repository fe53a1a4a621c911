-- ===== src/Oj.antt =====
-- oj/src: the online judge that uses the web server and the sandbox.
pub mod Judger
pub mod Snowflake
pub mod Users
pub mod Control
pub mod ProblemList
pub mod Routes
