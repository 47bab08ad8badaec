-- ===== src/Client.antt =====
-- sysmodule/src/net/kdeconnect_client.{h,cpp}: the sessions of the client, pairing, and the packets
-- that go through a session. The children are the state, the verification key, the queue of a session,
-- the handlers, and what is proved of them.
pub mod State
pub mod Key
pub mod Send
pub mod Frame
pub mod Pairing
pub mod Dispatch
pub mod Queues
pub mod Session
pub mod Download
pub mod Upload
pub mod Discovery
pub mod Connection
