-- ===== src/World.antt =====
-- The world that the services act on: the tables of the database (db/repositories, db/telegram.sql,
-- schema.sql), the Redis keys that the services write, and the messages that Telegram accepted.
-- A call to PostgreSQL, Redis or Telegram takes the next element of `faults`: `true` is a call that
-- fails and changes nothing; where the list has ended, no further call fails. One handler runs at one
-- time `now`, in Unix seconds; Postgres' CURRENT_DATE is the day of `now` in UTC. `serial` is the next
-- value of the SERIAL columns.
pub mod Tables
pub mod Calls
unfoldable pub use Tables.*
unfoldable pub use Calls.*
