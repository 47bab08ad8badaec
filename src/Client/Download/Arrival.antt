-- ===== src/Client/Download/Arrival.antt =====
-- A download to which nothing happens succeeds.
use kdeconnect_nx.Prelude.{
  ℕ, suc, ◌≤◌, ◌<◌, Text, Bool, true, false, not, ◌&&◌, ◌||◌, some, List, [], ◌∷◌, ◌≡◌, refl, arith,
  ◌==◌, ltb, length, take, drop, min, is_empty, All, Bool-cases, inl, inr, length-append,
  length-take, length-drop, lookup, insert,
}
use kdeconnect_nx.Storage.{Disk, remove_file}
use kdeconnect_nx.Client.Download.Finish.{download_payload-Outcome}
use kdeconnect_nx.Client.Download.{
  Answer, got, retry, failed, Transfer, End, ended, flush_chunk, to_read, fill, download_loop,
  finish, Setup, zeros, chunk_size, download_payload,
}

-- A turn of a connected session whose read gets at least a byte or is to be tried again.
abbrev pub GoesWell : Bool × Answer → Type 0
GoesWell (disconnected, got n) = (disconnected ≡ false) × (0 < n)
GoesWell (disconnected, retry) = disconnected ≡ false
GoesWell (disconnected, failed) = true ≡ false

-- How many reads got something.
abbrev pub reads : List (Bool × Answer) → ℕ
reads [] = 0
reads ((disconnected, got n) ∷ es) = suc (reads es)
reads ((disconnected, retry) ∷ es) = reads es
reads ((disconnected, failed) ∷ es) = reads es

length_pos : (t : Text) → 0 < length t → is_empty t ≡ false
length_pos [] h = absurd (omega (arith, h))
length_pos (c ∷ t) h = refl

module _ (k : ℕ) (file_write : ℕ → Bool) (writes : (n : ℕ) → file_write n ≡ true) where
  flush_chunk-works :
      (t : Transfer)
      → ((flush_chunk k file_write t).1 ≡ true)
        × (length (flush_chunk k file_write t).0.chunk ≡ 0)
        × ((flush_chunk k file_write t).0.remaining ≡ t.remaining)
  unfolding flush_chunk
  flush_chunk-works t = elim (Bool-cases (is_empty t.chunk)) [
    | inl nothing ↦ rw nothing (refl, empty t.chunk nothing, refl)
    | inr something ↦ rw (something, writes (length t.written)) (refl, refl, refl)
  ]
    where
      empty : (s : Text) → is_empty s ≡ true → length s ≡ 0
      empty [] h = refl
      empty (c ∷ s) h = absurd (cc)

  -- A read behind a chunk with room takes at least a byte of what is missing.
  piece-arrives :
      (n : ℕ) (input : Text) (t : Transfer)
      → 0 < n
      → 0 < t.remaining
      → t.remaining ≤ length input
      → length t.chunk < k
      → let piece = take (min n (to_read k file_write t)) input in
        let after = drop (length piece) input in
        let t1 = fill k file_write piece t in
        (0 < length piece)
        × (t1.remaining < t.remaining)
        × (t1.remaining ≤ length after)
        × (length t1.chunk ≤ k)
  piece-arrives n input t some_read missing enough room =
      let m = min n (to_read k file_write t) in
      let piece = take m input in
      let long = length-take m input in
      (
        omega (arith, long, some_read, missing, enough, room),
        omega (arith, long, some_read, missing, enough, room),
        omega (arith, long, missing, enough, length-drop (length piece) input),
        omega (arith, long, room, length-append t.chunk piece),
      )

  Completes : End → Type 0
  Completes e = (t : Transfer) × (e ≡ ended t) × (t.remaining ≡ 0)

  download_loop-Completes :
      (es : List (Bool × Answer)) (input : Text) (t : Transfer)
      → All GoesWell es
      → t.remaining ≤ reads es
      → t.remaining ≤ length input
      → length t.chunk < k
      → Completes (download_loop k file_write es input t)
  unfolding download_loop Completes
  download_loop-Completes [] input t well few enough room =
      let done : (t.remaining == 0) ≡ true = ground (arith, few) in
      rw done (t, refl, omega (arith, few))
  download_loop-Completes ((disconnected, failed) ∷ es) input t well few enough room = absurd (cc)
  download_loop-Completes ((disconnected, retry) ∷ es) input t well few enough room =
      elim (Bool-cases (t.remaining == 0 || disconnected)) [
        | inl stop ↦ rw stop (t, refl, ground (arith, stop, well.0))
        | inr on ↦ rw on (download_loop-Completes es input t well.1 few enough room)
      ]
  download_loop-Completes ((disconnected, got n) ∷ es) input t well few enough room =
      let piece = take (min n (to_read k file_write t)) input in
      let t1 = fill k file_write piece t in
      let after = drop (length piece) input in
      let flushed = flush_chunk k file_write t1 in
      let works = flush_chunk-works t1 in
      elim (Bool-cases (t.remaining == 0 || disconnected)) [
        | inl stop ↦ rw stop (t, refl, ground (arith, stop, well.0.0))
        | inr on ↦
            let (some_piece, fewer, still, fits) =
              piece-arrives n input t well.0.1 (ground (arith, on)) enough room in
            let read = length_pos piece some_piece in
            elim (Bool-cases (not (length t1.chunk == k || t1.remaining == 0))) [
              | inl more ↦
                  rw (on, read, more)
                    (download_loop-Completes es after t1 well.1 (omega (arith, few, fewer)) still
                      (ground (arith, more, fits)))
              | inr full ↦
                  rw (on, read, full, works.0)
                    (download_loop-Completes es after flushed.0 well.1
                      (omega (arith, works.2, few, fewer)) (omega (arith, works.2, still))
                      (omega (arith, works.1, room)))
            ]
      ]

  finish-Completes :
      (path : Text) (d : Disk) (e : End)
      → Completes e
      → (d' : Disk) × (finish k file_write false path d e ≡ some (d', true))
  unfolding finish Completes
  finish-Completes path d e (t, same, done) =
      let works = flush_chunk-works t in
      let nothing : ltb 0 (flush_chunk k file_write t).0.remaining ≡ false =
        ground (arith, works.2, done) in
      (
        record d { files = insert path (flush_chunk k file_write t).0.written d.files },
        rw (same, nothing, works.0) refl,
      )

completes :
    (s : Setup) (file_write : ℕ → Bool) (es : List (Bool × Answer)) (input : Text) (size : ℕ)
    (path : Text) (d : Disk)
    → (s.has_session && s.has_socket && s.has_address && s.connects && s.handshakes) ≡ true
    → (s.has_file_system && s.creates && s.opens) ≡ true
    → ((n : ℕ) → file_write n ≡ true)
    → All GoesWell es
    → size ≤ reads es
    → size ≤ length input
    → (d' : Disk) × (download_payload s file_write es false input size path d ≡ some (d', true))
unfolding download_payload
completes s file_write es input size path d peer file writes well few enough =
    let deleted = remove_file path d in
    let created = record deleted { files = insert path (zeros size) deleted.files } in
    let start : Transfer = record { written = []; chunk = []; remaining = size } in
    let done =
      finish-Completes chunk_size file_write writes path created
        (download_loop chunk_size file_write es input start)
        (download_loop-Completes chunk_size file_write writes es input start well few enough
          (omega arith)) in
    let card : s.has_file_system ≡ true = ground (arith, file) in
    let creates : s.creates ≡ true = ground (arith, file) in
    let opens : s.opens ≡ true = ground (arith, file) in
    (done.0, rw (peer, card, creates, opens) done.1)

-- Where the connection and the file are set up, the session stays connected and the writes succeed, the
-- peer sends at least the payload, and no read fails, as many reads as the payload has bytes are enough:
-- the download returns, it succeeds, and the file is the payload.
pub download_payload-completes :
    (s : Setup) (file_write : ℕ → Bool) (es : List (Bool × Answer)) (input : Text) (size : ℕ)
    (path : Text) (d : Disk)
    → (s.has_session && s.has_socket && s.has_address && s.connects && s.handshakes) ≡ true
    → (s.has_file_system && s.creates && s.opens) ≡ true
    → ((n : ℕ) → file_write n ≡ true)
    → All GoesWell es
    → size ≤ reads es
    → size ≤ length input
    → (d' : Disk) × (download_payload s file_write es false input size path d ≡ some (d', true))
      × (lookup path d'.files ≡ some (take size input))
download_payload-completes s file_write es input size path d peer file writes well few enough =
    let returns = completes s file_write es input size path d peer file writes well few enough in
    let d' = returns.0 in
    let opened : s.opens ≡ true = ground (arith, file) in
    (
      d',
      returns.1,
      elim (download_payload-Outcome s file_write es false input size path d (d', true) opened
          returns.1) [
            | inl (inl whole) ↦ whole.3
            | inl (inr failure) ↦ absurd (ground (arith, failure.0))
            | inr same ↦ absurd (cc)
          ],
    )
