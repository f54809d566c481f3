-- ===== src/Http.antt =====
-- The pure parts of the HTTP server: src/http/httpd.cc (query parameters), src/http/common.cc,
-- src/http/matcher.cc, src/http/routes.cc and include/nil/actor/http/matchrules.hh. Text is the list of
-- its bytes.
pub mod Common
pub mod Url
pub mod Params
pub mod Match
pub mod Routes
mod Tests
