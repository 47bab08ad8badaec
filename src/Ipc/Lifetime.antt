-- ===== src/Ipc/Lifetime.antt =====
-- The start and the stop of the service in sysmodule/src/ipc/ipc_service.cpp, and of the overlay's
-- connection to it in common/src/kdec/ipc_client.cpp.
pub mod Counted
use kdeconnect_nx.Prelude.{ℕ, ◌+◌, ◌-◌, ◌%◌, ◌^◌, ◌==◌, Bool, true, false, not, if◌then◌else◌}

-- `IpcService`: whether it runs, is registered, has a thread, and has loaded the settings.
pub record IpcService : Type 0 where
  pub running : Bool
  pub registered : Bool
  pub thread_open : Bool
  pub settings_loaded : Bool

-- `IpcService::start`, with whether `ipcServerInit`, `threadCreate` and `threadStart` succeed.
unfoldable pub start_service : Bool → Bool → Bool → IpcService → IpcService
start_service inits creates starts s =
    if s.running
    then s
    else if not inits
    then record s { running = false }
    else if not creates
    then record s { running = false; registered = false }
    else if not starts
    then record s { running = false; thread_open = false; registered = false }
    else record { running = true; registered = true; thread_open = true; settings_loaded = true }

-- `IpcService::stop`
unfoldable pub stop_service : IpcService → IpcService
stop_service s =
    if not s.running
    then s
    else record s { running = false; registered = false; thread_open = false }

-- `g_kdecSrv` and `g_refCnt`.
pub record Connection : Type 0 where
  pub active : Bool
  pub ref_count : ℕ

-- `kdecIpcInitialize`, with whether `smGetService` succeeds, and its own success.
unfoldable pub initialize : Bool → Connection → Connection × Bool
initialize gets c =
    let counted = (c.ref_count + 1) % 2 ^ 64 in
    if c.active
    then (record c { ref_count = counted }, true)
    else if gets
    then (record { active = true; ref_count = counted }, true)
    else (record { active = false; ref_count = (counted + (2 ^ 64 - 1)) % 2 ^ 64 }, false)

-- `kdecIpcExit`
unfoldable pub exit : Connection → Connection
exit c =
    if c.ref_count == 0
    then c
    else if c.ref_count - 1 == 0
    then record { active = false; ref_count = 0 }
    else record c { ref_count = c.ref_count - 1 }
