-- ===== src/Client/Download/Finish.antt =====
-- What a download leaves on the disk.
use kdeconnect_nx.Prelude.{
  ℕ, Text, Bool, true, false, not, ◌&&◌, ◌||◌, none, some, List, [], ◌∷◌, ◌++◌, ◌≡◌, ◌≢◌, ◌⊎◌, refl,
  sym, ap, subst, ◌∙◌, arith, ltb, length, take, is_empty, Bool-cases, inl, inr, append_assoc,
  append-nil, length-append, lookup, insert, lookup-insert, lookup-erase, eq_text_refl,
}
use kdeconnect_nx.Storage.{Disk, remove_file}
use mathlib.Core.Option.{some-injective}
use kdeconnect_nx.Client.Download.Whole.{IsOnCourse, EndsOnCourse, download_loop-EndsOnCourse}
use kdeconnect_nx.Client.Download.{
  Answer, Transfer, End, ended, write_error, waiting, flush_chunk, download_loop, finish, Setup,
  zeros, chunk_size, download_payload,
}

pub take-append : (a b : Text) → take (length a) (a ++ b) ≡ a
take-append [] b = refl
take-append (c ∷ a) b = ap (◌∷◌ c) (take-append a b)

is_empty_nil : (t : Text) → is_empty t ≡ true → t ≡ []
is_empty_nil [] h = refl
is_empty_nil (c ∷ t) h = absurd (cc)

flush_chunk-written :
    (k : ℕ) (file_write : ℕ → Bool) (t : Transfer)
    → ((flush_chunk k file_write t).0.remaining ≡ t.remaining)
      × ((flush_chunk k file_write t).1 ≡ true
          → (flush_chunk k file_write t).0.written ≡ t.written ++ t.chunk)
unfolding flush_chunk
flush_chunk-written k file_write t = elim (Bool-cases (is_empty t.chunk)) [
  | inl nothing ↦ rw nothing (
    refl,
    λ e. sym (ap (λ c. t.written ++ c) (is_empty_nil t.chunk nothing) ∙ append-nil t.written),
  )
  | inr something ↦ elim (Bool-cases (not (file_write (length t.written)))) [
    | inl bad ↦ rw (something, bad) (refl, λ e. absurd (cc))
    | inr good ↦ rw (something, good) (refl, λ e. refl)
  ]
]

-- The file at the path, and every other file, after the end of a download.
abbrev pub Left : Text → Text → ℕ → Disk × Bool → Type 0
Left path input size r =
    ((r.1 ≡ true)
      × ((rest : Text) × (input ≡ take size input ++ rest))
      × (length (take size input) ≡ size)
      × (lookup path r.0.files ≡ some (take size input)))
    ⊎ ((r.1 ≡ false) × (lookup path r.0.files ≡ none))

-- The same, where the file may withstand its deletion.
abbrev pub Outcome : Text → Text → ℕ → Disk → Disk × Bool → Type 0
Outcome path input size d r =
    ((r.1 ≡ true)
      × ((rest : Text) × (input ≡ take size input ++ rest))
      × (length (take size input) ≡ size)
      × (lookup path r.0.files ≡ some (take size input)))
    ⊎ ((r.1 ≡ false) × (d.can_remove path ≡ true → lookup path r.0.files ≡ none))

module _ (k : ℕ) (file_write : ℕ → Bool) (path input : Text) (size : ℕ) where
  -- A transfer with nothing missing has taken the whole payload.
  complete :
      (rest : Text) (t : Transfer)
      → IsOnCourse k file_write input size rest t
      → t.remaining ≡ 0
      → ((take size input ≡ t.written ++ t.chunk)
          × (length (take size input) ≡ size)
          × (input ≡ take size input ++ rest))
  complete rest t h done =
      let whole : (t.written ++ t.chunk) ++ rest ≡ input =
        append_assoc t.written t.chunk rest ∙ h.kept in
      let long : length (t.written ++ t.chunk) ≡ size =
        omega (arith, h.counted, done, length-append t.written t.chunk) in
      let prefix : take size input ≡ t.written ++ t.chunk =
        ap (λ n. take n input) (sym long)
        ∙ ap (take (length (t.written ++ t.chunk))) (sym whole)
        ∙ take-append (t.written ++ t.chunk) rest in
      (prefix, ap length prefix ∙ long, sym whole ∙ ap (λ s. s ++ rest) (sym prefix))

  lookup_gone :
      (d : Disk) → d.can_remove path ≡ true → lookup path (remove_file path d).files ≡ none
  unfolding remove_file
  lookup_gone d can = rw can (lookup-erase path path d.files ∙ rw (eq_text_refl path) refl)

  lookup_inserted :
      (s : Text) (files : List (Text × Text)) → lookup path (insert path s files) ≡ some s
  lookup_inserted s files = lookup-insert path path s files ∙ rw (eq_text_refl path) refl

  -- What `finish` makes of a loop that ended.
  finish_cases :
      (disconnected : Bool) (d : Disk) (t : Transfer)
      → ((finish k file_write disconnected path d (ended t) ≡ some (remove_file path d, false)))
        ⊎ ((finish k file_write disconnected path d (ended t)
              ≡ some (
                record d { files = insert path (flush_chunk k file_write t).0.written d.files },
                true,
              ))
            × ((flush_chunk k file_write t).0.remaining ≡ 0)
            × ((flush_chunk k file_write t).1 ≡ true))
  unfolding finish
  finish_cases disconnected d t =
      let flushed = flush_chunk k file_write t in
      elim (Bool-cases (disconnected || ltb 0 flushed.0.remaining || not (flushed.1))) [
        | inl aborted ↦ inl (rw aborted refl)
        | inr fine ↦ inr (rw fine refl, ground (arith, fine), ground (arith, fine))
      ]

  no_result :
      (disconnected : Bool) (d : Disk) (t : Transfer) (r : Disk × Bool)
      → finish k file_write disconnected path d (waiting t) ≢ some r
  unfolding finish
  no_result disconnected d t r e = absurd (cc)

  error_result :
      (disconnected : Bool) (d : Disk) (t : Transfer)
      → finish k file_write disconnected path d (write_error t) ≡ some (remove_file path d, false)
  unfolding finish
  error_result disconnected d t = refl

  finish-Outcome :
      (disconnected : Bool) (d : Disk) (e : End)
      → EndsOnCourse k file_write input size e
      → (r : Disk × Bool) → finish k file_write disconnected path d e ≡ some r
      → Outcome path input size d r
  finish-Outcome disconnected d (waiting t) h r e = absurd (no_result disconnected d t r e)
  finish-Outcome disconnected d (write_error t) h r e =
      subst (Outcome path input size d)
        (some-injective _ _ (sym (error_result disconnected d t) ∙ e))
        (inr (refl, λ can. lookup_gone d can))
  finish-Outcome disconnected d (ended t) (rest, h) r e =
      let lem = flush_chunk-written k file_write t in
      elim (finish_cases disconnected d t) [
        | inl aborted ↦
            subst (Outcome path input size d) (some-injective _ _ (sym aborted ∙ e))
              (inr (refl, λ can. lookup_gone d can))
        | inr (saved, done, good) ↦
            let all = complete rest t h (sym lem.0 ∙ done) in
            let text = lem.1 good ∙ sym all.0 in
            subst (Outcome path input size d) (some-injective _ _ (sym saved ∙ e)) (
              inl (
                refl,
                (rest, all.2),
                all.1,
                lookup_inserted (flush_chunk k file_write t).0.written d.files ∙ ap some text,
              ))
      ]

pub download_payload-Outcome :
    (s : Setup) (file_write : ℕ → Bool) (es : List (Bool × Answer)) (disconnected : Bool)
    (input : Text) (size : ℕ) (path : Text) (d : Disk) (r : Disk × Bool)
    → s.opens ≡ true
    → download_payload s file_write es disconnected input size path d ≡ some r
    → Outcome path input size d r ⊎ (r ≡ (d, false))
unfolding download_payload remove_file
download_payload-Outcome s file_write es disconnected input size path d r opened e =
    let deleted = remove_file path d in
    let created = record deleted { files = insert path (zeros size) deleted.files } in
    let start : Transfer = record { written = []; chunk = []; remaining = size } in
    let loop = download_loop chunk_size file_write es input start in
    let on_course =
      download_loop-EndsOnCourse chunk_size file_write input size es input start
        (record { kept = refl; counted = omega arith; fits = omega arith }) in
    elim (Bool-cases
      (not (s.has_session && s.has_socket && s.has_address && s.connects && s.handshakes))) [
        | inl no_peer ↦ inr (sym (some-injective _ _ (rw no_peer at e)))
        | inr peer ↦ elim (Bool-cases (not s.has_file_system)) [
          | inl no_card ↦ inr (sym (some-injective _ _ (rw (peer, no_card) at e)))
          | inr card ↦ elim (Bool-cases (not s.creates)) [
            | inl not_created ↦ inl (
                subst (Outcome path input size d)
                  (some-injective _ _ (rw (peer, card, not_created) at e))
                  (inr (refl, λ can. lookup_gone chunk_size file_write path input size d can)))
            | inr was_created ↦ inl (
                finish-Outcome chunk_size file_write path input size disconnected created loop
                  on_course r (rw (peer, card, was_created, opened) at e))
          ]
        ]
      ]

-- A download that returns, that could open the file it created, and whose file can be deleted, leaves
-- no part of a file: it has
-- saved all of the payload, which are the first bytes that the peer sent, as many as the packet says; or
-- it has failed, and there is no file at the path or the disk is as it was.
pub download_payload-Left :
    (s : Setup) (file_write : ℕ → Bool) (es : List (Bool × Answer)) (disconnected : Bool)
    (input : Text) (size : ℕ) (path : Text) (d : Disk) (r : Disk × Bool)
    → s.opens ≡ true
    → d.can_remove path ≡ true
    → download_payload s file_write es disconnected input size path d ≡ some r
    → Left path input size r ⊎ (r ≡ (d, false))
download_payload-Left s file_write es disconnected input size path d r opened can e =
    elim (download_payload-Outcome s file_write es disconnected input size path d r opened e) [
      | inl (inl saved) ↦ inl (inl saved)
      | inl (inr (failed, gone)) ↦ inl (inr (failed, gone can))
      | inr same ↦ inr same
    ]
