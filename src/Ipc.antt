-- ===== src/Ipc.antt =====
-- The calls between the overlay and the system module: common/src/kdec/ipc.h and ipc_client.cpp, and
-- sysmodule/src/ipc/ipc_service.cpp. The children are the layouts, the caller's side and the service's.
pub mod Wire
pub mod Requests
pub mod Listing
pub mod Service
pub mod Lifetime
