-- ===== src/Client.antt =====
-- app/src/boosteroid_client.cpp and its helpers: the account, the session that is queued for and
-- started, and the JSON that comes back. jansson and libcurl are parameters.
pub mod Json
pub mod World
pub mod Session
pub mod Waiting
pub mod Await
pub mod Dates
mod Tests
