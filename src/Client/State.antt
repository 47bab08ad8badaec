-- ===== src/Client/State.antt =====
-- kdeconnect_client.h and plugins/plugin.h: the state. A session is shared by the map, its thread and
-- the handlers, so it lives on a heap and is named by a handle; the map may hold a newer session than
-- the one whose thread runs. Locks are not modelled: an operation is one step of the program.
use kdeconnect_nx.Prelude.{
  ℕ, Text, Bool, true, false, Option, List, ◌∷◌, ◌++◌, ◌==◌, if◌then◌else◌, lookup,
}
use kdeconnect_nx.Prelude.Int.{ℤ}
use kdeconnect_nx.Json.Yyjson.{Yyjson}
use kdeconnect_nx.Packet.{NetworkPacket}
use kdeconnect_nx.Identity.{DeviceInfo}
use kdeconnect_nx.Storage.{Disk}

pub data PairState : Type 0 where
  not_paired requested requested_by_peer paired : PairState

abbrev pub is_requested : PairState → Bool
is_requested requested = true
is_requested _ = false

-- `NotificationPlugin::post_notification` with its title, body and id.
pub record Notification : Type 0 where
  pub title : Text
  pub body : Text
  pub id : Text

-- The virtual functions of `Plugin` that the client calls, over the state of one plugin. The packets
-- that a plugin sends meanwhile are part of the result, in order. A packet may also make a plugin
-- read and change files and post notifications, the last one first; no plugin does so on a connection.
pub record PluginHost (y : Yyjson) : Type 1 where
  pub Plugin : Type 0
  pub instantiate : Text → List Plugin
  pub supported_packet_types : Plugin → List Text
  pub on_connected : Bool → Plugin → Plugin × List (NetworkPacket y)
  pub on_packet_received :
      Disk
      → NetworkPacket y
      → Plugin
      → Plugin × Bool × List (NetworkPacket y) × Disk × List Notification

pub record DeviceSession (P : Type 0) : Type 0 where
  pub info : DeviceInfo
  pub pair_state : PairState
  pub pairing_timestamp : ℤ
  pub is_paired : Bool
  pub cert_pem : Text
  pub peer_pubkey : Text
  pub fd_open : Bool
  pub send_queue : List Text
  pub disconnected : Bool
  pub plugins : List P

pub record Client (P : Type 0) : Type 0 where
  pub local_device : DeviceInfo
  pub local_pubkey : Text
  pub tcp_port : ℤ
  pub sessions : List (Text × ℕ)
  pub heap : ℕ → DeviceSession P
  pub next_handle : ℕ
  pub disk : Disk
  pub notifications : List Notification

-- The clock during one operation: `system_clock` in seconds and in milliseconds.
pub record Now : Type 0 where
  pub seconds : ℤ
  pub milliseconds : ℤ

module _ {P : Type 0} where
  -- `device(id)`: the session's handle, or a null pointer.
  unfoldable pub device : Client P → Text → Option ℕ
  device c id = lookup id c.sessions

  abbrev pub update : ℕ → (DeviceSession P → DeviceSession P) → Client P → Client P
  update h f c = record c { heap = λ k. if k == h then f (c.heap h) else c.heap k }

  -- What a plugin did outside of its state and the queues.
  abbrev pub outside : Disk → List Notification → Client P → Client P
  outside d posted c = record c { disk = d; notifications = posted ++ c.notifications }

  abbrev pub notify : Text → Text → Text → Client P → Client P
  notify title body id c = record c {
    notifications = record { title = title; body = body; id = id } ∷ c.notifications;
  }
