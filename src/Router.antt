-- ===== src/Router.antt =====
-- src/api/router.h, router.cpp: the routes of the management API, the parsing of its requests and the
-- text of its responses.
pub mod Regex
pub mod Groups
pub mod Routes
pub mod Pattern
pub mod Dispatch
pub mod Examples
