-- ===== src/Store.antt =====
-- internal/store: the tables that the terminal protocol reads and writes, one function per
-- transaction. A function returns the new database or an error; an error leaves the database as it
-- was, as a rollback does. `now` is the transaction's clock.
pub mod Tables
pub mod Terminals
pub mod IsapiCommands
pub mod Columns
pub mod Archive
pub mod EventSync
