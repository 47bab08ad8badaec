-- ===== src/Lib.antt =====
-- KDE Connect NX: a KDE Connect client for the Nintendo Switch. A background process (sysmodule/)
-- finds other devices in the network, connects to them over TLS, pairs with them, and passes packets,
-- one JSON document per line, between them and a set of plugins (volume, battery, media player, remote
-- keyboard and others). An overlay shows its state to the user through an IPC service.
--
-- The parts that are modelled, and their files:
--
--   Prelude    Shared helpers: tests, lists over the native numbers, texts as lists of bytes with C
--              strings, association lists, and the machine's integers (Prelude/Int).
--   Json       sysmodule/src/net/json_body.cpp and .h. Json/Yyjson is the interface of the JSON library
--              yyjson, which the program only calls: its values and functions are fields, the documented
--              behaviour that the code relies on are the laws. Json/Body are the readers of `JsonBody`,
--              Json/Setters the setters and `dump`, Json/Iterate the `each_*` functions. Json/Fields,
--              Json/Upserts and Json/Written carry the lemmas.
--   Packet     sysmodule/src/net/network_packet.cpp and .h. `envelope` is the document that
--              `NetworkPacket::serialize` builds, `of_root` what `NetworkPacket::parse` reads of a root.
--              Packet/Channel joins it with Stream: packets from one device's queue to another's handler.
--   Stream     The loops of sysmodule/src/utils/network_util.cpp: `read_line_fd`, `read_line_tls`,
--              `send_all_tls_raw` and `perform_tls_handshake`, over the list of what the socket or the TLS
--              session answers; where the list ends, the loop waits.
--   Identity   `info_from_identity` and `make_identity_packet` of sysmodule/src/utils/network_util.cpp,
--              with `DeviceInfo` of sysmodule/src/net/kdeconnect_types.h.
--   Storage    The paired devices of sysmodule/src/utils/storage.cpp, over a disk that is an association
--              list from paths to contents and says which paths can be written, what a write that
--              fails leaves, and which files can be removed. Paths are told apart by their texts: two
--              texts that name one file (`./x` and `x`, or another case of letters) are two files.
--              Storage/Folder is `list_paired_device_ids`, over the names in the folder.
--   Settings   sysmodule/src/utils/settings_store.cpp with the tables of common/src/constants.h. The two
--              maps are functions from keys; `load` and `save` go through a JSON file on the disk.
--              Settings/Tables, Fold, Saved and Restart carry the lemmas, Settings/Durable what a
--              new process loads of saved settings, Settings/Changes what it finds after one was set.
--   Client     sysmodule/src/net/kdeconnect_client.cpp and .h with `DeviceSession` and `Plugin` of
--              sysmodule/src/plugins/plugin.h. Client/State is the state: `sessions_` maps device ids to
--              handles of a heap, because the map, a session's thread and the handlers share the
--              session and the map may hold a newer one. Client/Send is `send_packet` and what the
--              plugins do of it, Client/Key the verification key, Client/Pairing the handler of pair
--              packets and the user's `request_pair`, `accept_pair`, `reject_pair` and `unpair`,
--              Client/Connection `handle_new_connection` and the check of an announced identity.
--              Client/Dispatch is `handle_packet`: pair packets go to the pairing handler, other
--              packets to the plugins of a paired session, in order, until one has handled it.
--              Client/Session is `io_loop`, the thread of a session, by turns: what other threads did, the
--              lines sent, and the line read, which goes to `handle_packet`, or a read that does not
--              return; Client/Queues shows that the handlers only append to the queues. Client/Download is `download_payload`, over the answers
--              of its reads and writes, and Client/Upload `send_payload_reader`. Client/Discovery is what
--              `network_loop` does of a datagram, and the announcements.
--   AlbumArt   `lru_touch` of sysmodule/src/utils/album_art.cpp: the covers that are kept. Its loop runs on
--              the length of the list as fuel, which is enough since each turn removes one.
--   Plugins    Plugins of sysmodule/src/plugins, each as a state with its handlers, which return what
--              they send: Plugins/Volume (system_volume_plugin), Plugins/Mpris (mpris_plugin),
--              Plugins/Mousepad (mousepad_plugin, the branch of the console), Plugins/Battery
--              (battery_plugin), Plugins/Notifications (notification_plugin, with the notify files in
--              Plugins/Notifications/Posting), Plugins/Share (what share_plugin receives),
--              Plugins/RunCommand (run_command_plugin) and Plugins/Ping (ping_plugin and
--              find_my_phone_plugin). Plugins/Registry is plugin_registry.cpp: the order of the plugins and
--              the types of their packets. The services of the console are arguments.
--   Tls        sysmodule/src/net/tls.cpp and .h, over a record of the calls of mbedtls: `load_or_create` and
--              what it calls, which keep the certificate and key of this device on the disk, and in
--              Tls/Sessions the set-up of a session and the callbacks of its socket. Tls/Persistent and
--              Tls/Chain carry what later runs and sessions have of the identity.
--   Mdns       sysmodule/src/mdns/mdns_discovery.cpp: what is announced, `service_callback` with the room of
--              its array, and `discovery_callback`. Mdns/Impl is the start, the stop and the loop of the
--              thread by turns.
--   Ipc        common/src/kdec/ipc.h and ipc_client.cpp and sysmodule/src/ipc/ipc_service.cpp: Ipc/Wire the
--              layouts as bytes, Ipc/Requests the caller's side, Ipc/Listing the lists that fill a
--              caller's buffer, Ipc/Service `handle_command` by its cases (Handlers, Console, Commands),
--              and Ipc/Lifetime the start and stop of the service and the counted connection.
--   Examples   A small JSON library of trees with its printer and parser, which fills the interface
--              Json/Yyjson, and the theorems applied to concrete packets, disks and clients.
--
-- How the parts interact: a connection's first packet is an identity (Packet, Identity), which the
-- client checks against its map and against the disk (Storage) before it installs a session and connects
-- its plugins. A pair packet on a session changes its state, the disk and the plugins. What the
-- overlay asks goes as bytes (Ipc/Wire) to the service, which calls the client, the plugins of a session
-- or the settings.
--
-- Conventions. An operation is one step of the program: locks are taken for granted and the threads'
-- interleaving is the order of the operations. Where an operation waits with its locks released, as
-- `handle_new_connection` does during the handshake and `io_loop` between its turns, what the other
-- threads do meanwhile to the client is an argument, any function. Both clocks are arguments. `DeviceSession::fd`, the
-- thread and the TLS state are reduced to what the operations test. A text is a list of byte values. An
-- `int` and an `int64_t` are integers, with the wrap-around written out where the code computes; the
-- setters store what they are given. All recursion is structural, but for the loop of AlbumArt and the
-- parser of trees in Examples, which takes the length of its input and is proved to read back what is
-- printed.
--
-- The cryptography, the plugins as the client sees them (a record `PluginHost` of the virtual
-- functions, whose effects are a plugin's own state, the packets that it sends, and, on a packet, the
-- files that it changes and the notifications that it posts), the JSON
-- library and the result of a TLS handshake are parameters, and so is `write_app_icon`, by what it does
-- to the disk: it decodes a PNG file by libpng. For the service the views of a plugin stand for the
-- `dynamic_cast` of `plugin<T>()`, and the clocks, the folder of the devices, the counters of the memory
-- and the sending of a screenshot come from its environment.
--
-- Not modelled: the protocol of TLS, which is mbedtls's, and the set-up of sockets; mdns.h and
-- ipc_server.c, copies of other projects' libraries; the loop of the service's thread; logging and memory
-- diagnostics, what a command does to the console, the download of covers, the overlay's user interface,
-- and the vendored libraries.
pub mod Prelude
pub mod Json
pub mod Stream
pub mod Packet
pub mod Identity
pub mod Storage
pub mod Tls
pub mod Settings
pub mod Client
pub mod Mdns
pub mod Ipc
pub mod AlbumArt
pub mod Plugins
pub mod Examples
