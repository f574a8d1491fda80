-- ===== src/Server.antt =====
-- The server package: a state of one database, one system and one database backend, over which the
-- handlers run, and the helpers of server/server.go that they share.
--
-- A handler is a function from the world to its answer and the world after it, `M A`. Each
-- statement sent to the database takes the next number; the backend says of every number whether
-- the statement fails (the connection, the driver, a value that a column cannot hold), what
-- `now()` is in it and which identifier `gen_random_uuid()` gives.
pub mod Db
pub mod Text
pub mod Route
pub mod Admin
pub mod Signer
pub mod Platform
pub mod Tables
pub mod Agents
pub mod Actions
pub mod Writes
pub mod Devices
pub mod Migrate
pub mod Mux
pub mod Listing
pub mod Start
