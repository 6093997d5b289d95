-- ===== src/Client/Laws.antt =====
-- What holds of every operation of the API client.
pub mod Cookies
pub mod Single
pub mod Served
pub mod Requests
pub mod Listed
pub mod Answers
pub mod Paths
