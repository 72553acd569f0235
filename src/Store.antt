-- ===== src/Store.antt =====
-- internal/store: the state database. A table is the list of its rows, and a SQL statement of the
-- source is a function on it; `nowUTC()` is an argument.
pub mod Table
pub mod Media
pub mod Reports
pub mod Chats
pub mod Runs
pub mod Migrations
mod Tests
