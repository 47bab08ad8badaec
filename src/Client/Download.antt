-- ===== src/Client/Download.antt =====
-- `download_payload` of net/kdeconnect_client.cpp, as it is compiled for the console. The answers of
-- the calls before the transfer are arguments. Each turn of the loop has the session's flag as the loop
-- tests it and the answer to the read; the bytes that the peer sends are a text. `payload_size` is a
-- natural number, since the plugins ask only for a packet with a payload.
pub mod Whole
pub mod Finish
pub mod Arrival
use kdeconnect_nx.Prelude.{
  ℕ, zero, suc, ◌+◌, ◌-◌, ◌≤◌, Text, Bool, true, false, not, ◌&&◌, ◌||◌, Option, none, some, List,
  [], ◌∷◌, ◌++◌, if◌then◌else◌, ◌==◌, ltb, length, take, drop, min, is_empty, insert,
}
use kdeconnect_nx.Storage.{Disk, remove_file}

-- `mbedtls_ssl_read`: so many of the bytes that wait, MBEDTLS_ERR_SSL_WANT_READ, or the end or an error.
pub data Answer : Type 0 where
  got : ℕ → Answer
  retry failed : Answer

-- The chunk holds what was read and not yet written; the offset is the length of what was written.
pub record Transfer : Type 0 where
  pub written : Text
  pub chunk : Text
  pub remaining : ℕ

-- How the loop ends, or that it waits for the next answer.
pub data End : Type 0 where
  ended write_error waiting : Transfer → End

module _ (k_chunk_size : ℕ) (file_write : ℕ → Bool) where
  unfoldable pub flush_chunk : Transfer → Transfer × Bool
  flush_chunk t =
      if is_empty t.chunk
      then (t, true)
      else if not (file_write (length t.written))
      then (t, false)
      else (record t { written = t.written ++ t.chunk; chunk = [] }, true)

  -- How many bytes a read may put behind those in the chunk.
  abbrev pub to_read : Transfer → ℕ
  to_read t = min t.remaining (k_chunk_size - length t.chunk)

  -- The transfer with the bytes of one read.
  abbrev pub fill : Text → Transfer → Transfer
  fill piece t = record t { chunk = t.chunk ++ piece; remaining = t.remaining - length piece }

  unfoldable pub download_loop : List (Bool × Answer) → Text → Transfer → End
  download_loop [] input t = if t.remaining == 0 then ended t else waiting t
  download_loop ((disconnected, retry) ∷ es) input t =
      let rest = download_loop es input t in
      if t.remaining == 0 || disconnected then ended t else rest
  download_loop ((disconnected, failed) ∷ es) input t = ended t
  download_loop ((disconnected, got n) ∷ es) input t =
      let piece = take (min n (to_read t)) input in
      let t1 = fill piece t in
      let (t2, flushed) = flush_chunk t1 in
      let after = drop (length piece) input in
      let rest = download_loop es after t1 in
      let rest_flushed = download_loop es after t2 in
      if t.remaining == 0 || disconnected
      then ended t
      else if is_empty piece
      then ended t
      else if not (length t1.chunk == k_chunk_size || t1.remaining == 0)
      then rest
      else if flushed
      then rest_flushed
      else write_error t1

  -- After the loop: the last flush, and what becomes of the file. `none` while the loop waits.
  unfoldable pub finish : Bool → Text → Disk → End → Option (Disk × Bool)
  finish disconnected path d (waiting t) = none
  finish disconnected path d (write_error t) = some (remove_file path d, false)
  finish disconnected path d (ended t) =
      let (t', flushed) = flush_chunk t in
      if disconnected || ltb 0 t'.remaining || not flushed
      then some (remove_file path d, false)
      else some (record d { files = insert path t'.written d.files }, true)

-- What the calls before the transfer answer, in their order.
pub record Setup : Type 0 where
  pub has_session : Bool
  pub has_socket : Bool
  pub has_address : Bool
  pub connects : Bool
  pub handshakes : Bool
  pub has_file_system : Bool
  pub creates : Bool
  pub opens : Bool

abbrev pub zeros : ℕ → Text
zeros zero = []
zeros (suc n) = 0 ∷ zeros n

abbrev pub chunk_size : ℕ
chunk_size = 65536

unfoldable pub download_payload :
    Setup → (ℕ → Bool) → List (Bool × Answer) → Bool → Text → ℕ → Text → Disk → Option (Disk × Bool)
download_payload s file_write es disconnected input payload_size path d =
    let deleted = remove_file path d in
    let created = record deleted { files = insert path (zeros payload_size) deleted.files } in
    let start : Transfer = record { written = []; chunk = []; remaining = payload_size } in
    if not (s.has_session && s.has_socket && s.has_address && s.connects && s.handshakes)
    then some (d, false)
    else if not s.has_file_system
    then some (d, false)
    else if not s.creates
    then some (deleted, false)
    else if not s.opens
    then some (created, false)
    else finish chunk_size file_write disconnected path created
        (download_loop chunk_size file_write es input start)
