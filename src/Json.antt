-- ===== src/Json.antt =====
-- sysmodule/src/net/json_body.{h,cpp}: `JsonBody`, an object of the yyjson library.
pub mod Yyjson
pub mod Body
pub mod Iterate
pub mod Setters
pub mod Fields
pub mod Upserts
pub mod Written
