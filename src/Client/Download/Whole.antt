-- ===== src/Client/Download/Whole.antt =====
-- What holds of the transfer at every turn of the loop.
use kdeconnect_nx.Prelude.{
  ℕ, zero, suc, ◌+◌, ◌≤◌, Text, Bool, not, ◌||◌, List, [], ◌∷◌, ◌++◌, ◌≡◌, refl, ap, ◌∙◌, arith,
  ◌==◌, length, take, drop, min, is_empty, Bool-cases, inl, inr, append_assoc, length-append,
  length-take,
}
use kdeconnect_nx.Client.Download.{
  Answer, got, retry, failed, Transfer, End, ended, write_error, waiting, flush_chunk, to_read,
  fill, download_loop,
}

pub take-drop_taken :
    (m : ℕ) (input : Text) → take m input ++ drop (length (take m input)) input ≡ input
take-drop_taken zero input = refl
take-drop_taken (suc m) [] = refl
take-drop_taken (suc m) (c ∷ input) = ap (◌∷◌ c) (take-drop_taken m input)

module _ (k : ℕ) (file_write : ℕ → Bool) (whole : Text) (size : ℕ) where
  -- What is written, what is in the chunk and what has not been read make up what the peer sends, the
  -- bytes that are missing are counted, and the chunk does not overflow.
  pub record IsOnCourse (input : Text) (t : Transfer) : Type 0 where
    pub kept : t.written ++ (t.chunk ++ input) ≡ whole
    pub counted : length t.written + length t.chunk + t.remaining ≡ size
    pub fits : length t.chunk ≤ k

  abbrev pub EndsOnCourse : End → Type 0
  EndsOnCourse (ended t) = (input : Text) × IsOnCourse input t
  EndsOnCourse (write_error t) = (input : Text) × IsOnCourse input t
  EndsOnCourse (waiting t) = (input : Text) × IsOnCourse input t

  flush_chunk-IsOnCourse :
      (input : Text) (t : Transfer)
      → IsOnCourse input t
      → IsOnCourse input (flush_chunk k file_write t).0
  unfolding flush_chunk
  flush_chunk-IsOnCourse input t h = elim (Bool-cases (is_empty t.chunk)) [
    | inl nothing ↦ rw nothing h
    | inr something ↦ elim (Bool-cases (not (file_write (length t.written)))) [
      | inl bad ↦ rw (something, bad) h
      | inr good ↦
          rw (something, good)
            (record {
              kept = append_assoc t.written t.chunk input ∙ h.kept;
              counted = omega (arith, h.counted, length-append t.written t.chunk);
              fits = omega arith;
            })
    ]
  ]

  fill-IsOnCourse :
      (n : ℕ) (input : Text) (t : Transfer)
      → IsOnCourse input t
      → let piece = take (min n (to_read k file_write t)) input in
        IsOnCourse (drop (length piece) input) (fill k file_write piece t)
  fill-IsOnCourse n input t h =
      let m = min n (to_read k file_write t) in
      let piece = take m input in
      record {
        kept =
            ap (λ s. t.written ++ s) (append_assoc t.chunk piece (drop (length piece) input))
            ∙ ap (λ s. t.written ++ (t.chunk ++ s)) (take-drop_taken m input)
            ∙ h.kept;
        counted = omega (arith, h.counted, length-append t.chunk piece, length-take m input);
        fits = omega (arith, h.fits, length-append t.chunk piece, length-take m input);
      }

  -- The transfer stays on course, whatever the reads and writes answer: the chunk never holds more than
  -- its size, no byte is lost or repeated, and the count of the missing bytes is right.
  pub download_loop-EndsOnCourse :
      (es : List (Bool × Answer)) (input : Text) (t : Transfer)
      → IsOnCourse input t
      → EndsOnCourse (download_loop k file_write es input t)
  unfolding download_loop
  download_loop-EndsOnCourse [] input t h = elim (Bool-cases (t.remaining == 0)) [
    | inl done ↦ rw done (input, h)
    | inr more ↦ rw more (input, h)
  ]
  download_loop-EndsOnCourse ((disconnected, retry) ∷ es) input t h =
      elim (Bool-cases (t.remaining == 0 || disconnected)) [
        | inl stop ↦ rw stop (input, h)
        | inr on ↦ rw on (download_loop-EndsOnCourse es input t h)
      ]
  download_loop-EndsOnCourse ((disconnected, failed) ∷ es) input t h = (input, h)
  download_loop-EndsOnCourse ((disconnected, got n) ∷ es) input t h =
      let piece = take (min n (to_read k file_write t)) input in
      let t1 = fill k file_write piece t in
      let filled = fill-IsOnCourse n input t h in
      let after = drop (length piece) input in
      let flushed = flush_chunk k file_write t1 in
      elim (Bool-cases (t.remaining == 0 || disconnected)) [
        | inl stop ↦ rw stop (input, h)
        | inr on ↦ elim (Bool-cases (is_empty piece)) [
          | inl closed ↦ rw (on, closed) (input, h)
          | inr read ↦ elim (Bool-cases (not (length t1.chunk == k || t1.remaining == 0))) [
            | inl room ↦ rw (on, read, room) (download_loop-EndsOnCourse es after t1 filled)
            | inr full ↦ elim (Bool-cases (flushed.1)) [
              | inl good ↦
                  rw (on, read, full, good)
                    (download_loop-EndsOnCourse es after flushed.0
                      (flush_chunk-IsOnCourse after t1 filled))
              | inr bad ↦ rw (on, read, full, bad) (after, filled)
            ]
          ]
        ]
      ]
