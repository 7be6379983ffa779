-- ===== src/Http.antt =====
-- component/http-albatross: the protocol-agnostic vocabulary and the routing layer.
pub mod UrlDecode
pub mod Method
pub mod Paths
pub mod Headers
pub mod Responses
pub mod Query
pub mod Dispatch
pub mod Controllers
pub mod Routes
