-- ===== src/Gateway.antt =====
-- api: the filters in front of the gateway, its request parameters, and the context of a request.
pub mod Context
pub mod Auth
pub mod Attributes
pub mod Credentials
pub mod Params
pub mod Listing
pub mod Routes
pub mod Objects
pub mod Multipart
mod Tests
