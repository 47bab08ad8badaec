-- ===== src/Client/Upload/Transfer.antt =====
-- A payload from the file of one device to the file of another.
use kdeconnect_nx.Prelude.{
  ℕ, zero, suc, ◌+◌, ◌-◌, ◌≤◌, ◌<◌, Text, Bool, true, not, some, List, [], ◌∷◌, ◌++◌, ◌≡◌, refl,
  sym, ap, ◌∙◌, subst, arith, ◌==◌, length, take, drop, min, is_empty, lookup, Bool-cases, inl, inr,
  length-append, length-take, append_assoc, append-nil,
}
use mathlib.Core.Option.{some-injective}
use kdeconnect_nx.Storage.{Disk}
use kdeconnect_nx.Client.Upload.{free_port, Uploaded, uploaded, waiting, after, upload_loop}
use kdeconnect_nx.Client.Download.{Answer, Setup, download_payload}
use kdeconnect_nx.Client.Download.Whole.{take-drop_taken}
use kdeconnect_nx.Client.Download.Finish.{take-append, download_payload-Outcome}

-- What was sent is a first part of the file, and the missing bytes are counted.
abbrev pub IsFirstPart : Text → ℕ → Uploaded → Type 0
IsFirstPart file size (uploaded sent remaining) =
    ((rest : Text) × (sent ++ rest ≡ file)) × (length sent + remaining ≡ size)
IsFirstPart file size (waiting sent remaining) =
    ((rest : Text) × (sent ++ rest ≡ file)) × (length sent + remaining ≡ size)

after-IsFirstPart :
    (piece file whole : Text) (remaining size : ℕ) (u : Uploaded)
    → piece ++ file ≡ whole
    → length piece + remaining ≡ size
    → IsFirstPart file remaining u
    → IsFirstPart whole size (after piece u)
after-IsFirstPart piece file whole remaining size (uploaded sent left) e n h = (
  (h.0.0, append_assoc piece sent h.0.0 ∙ ap (λ t. piece ++ t) h.0.1 ∙ e),
  omega (arith, n, h.1, length-append piece sent),
)
after-IsFirstPart piece file whole remaining size (waiting sent left) e n h = (
  (h.0.0, append_assoc piece sent h.0.0 ∙ ap (λ t. piece ++ t) h.0.1 ∙ e),
  omega (arith, n, h.1, length-append piece sent),
)

pub upload_loop-IsFirstPart :
    (send_all : Text → Bool) (ns : List ℕ) (file : Text) (size : ℕ)
    → IsFirstPart file size (upload_loop send_all ns file size)
unfolding upload_loop
upload_loop-IsFirstPart send_all [] file size = elim (Bool-cases (size == 0)) [
  | inl nothing ↦ rw nothing ((file, refl), ground (arith, nothing))
  | inr more ↦ rw more ((file, refl), omega arith)
]
upload_loop-IsFirstPart send_all (n ∷ ns) file size =
    let m = min n (min size 4096) in
    let piece = take m file in
    let left = drop (length piece) file in
    elim (Bool-cases (size == 0)) [
      | inl nothing ↦ rw nothing ((file, refl), ground (arith, nothing))
      | inr more ↦ elim (Bool-cases (is_empty piece)) [
        | inl closed ↦ rw (more, closed) ((file, refl), omega arith)
        | inr read ↦ elim (Bool-cases (not (send_all piece))) [
          | inl failed ↦ rw (more, read, failed) ((file, refl), omega arith)
          | inr sent ↦
              rw (more, read, sent)
                (after-IsFirstPart piece left file (size - length piece) size
                  (upload_loop send_all ns left (size - length piece)) (take-drop_taken m file)
                  (omega (arith, length-take m file))
                  (upload_loop-IsFirstPart send_all ns left (size - length piece)))
        ]
      ]
    ]

-- An upload that ends with nothing missing has sent the first bytes of the file.
complete :
    (file : Text) (size : ℕ) (sent : Text)
    → IsFirstPart file size (uploaded sent 0)
    → sent ≡ take size file
complete file size sent h =
    let long : length sent ≡ size = omega (arith, h.1) in
    sym (
      ap (λ n. take n file) (sym long)
      ∙ ap (take (length sent)) (sym h.0.1)
      ∙ take-append sent h.0.0)

-- A payload that one device has sent to its end, and that another device downloads from these bytes
-- and reports as saved, is the file: the receiver has its first bytes, as many as were announced.
pub upload_download :
    (send_all : Text → Bool) (ns : List ℕ) (file sent : Text) (size : ℕ) (s : Setup)
    (file_write : ℕ → Bool) (es : List (Bool × Answer)) (disconnected : Bool) (path : Text)
    (d d' : Disk)
    → upload_loop send_all ns file size ≡ uploaded sent 0
    → s.opens ≡ true
    → download_payload s file_write es disconnected sent size path d ≡ some (d', true)
    → lookup path d'.files ≡ some (take size file)
upload_download send_all ns file sent size s file_write es disconnected path d d' up opened down =
    let part : IsFirstPart file size (uploaded sent 0) =
      subst (IsFirstPart file size) up (upload_loop-IsFirstPart send_all ns file size) in
    let first = complete file size sent part in
    let long : length sent ≡ size = omega (arith, part.1) in
    let all : take size sent ≡ sent =
      ap (λ n. take n sent) (sym long)
      ∙ ap (take (length sent)) (sym (append-nil sent))
      ∙ take-append sent [] in
    elim (download_payload-Outcome s file_write es disconnected sent size path d (d', true) opened
      down) [
        | inl (inl whole) ↦ whole.3 ∙ ap some (all ∙ first)
        | inl (inr failure) ↦ absurd (ground (arith, failure.0))
        | inr same ↦ absurd (cc)
      ]

-- A port that is found lies in the range and can be bound.
pub free_port_lem :
    (binds : ℕ → Bool) (p n q : ℕ)
    → free_port binds p n ≡ some q
    → (p ≤ q) × (q < p + n) × (binds q ≡ true)
unfolding free_port
free_port_lem binds p zero q e = absurd (cc)
free_port_lem binds p (suc n) q e = elim (Bool-cases (binds p)) [
  | inl free ↦
      let same : p ≡ q = some-injective _ _ (rw free at e) in
      (omega (arith, same), omega (arith, same), subst (λ k. binds k ≡ true) same free)
  | inr taken ↦
      let (from, to, free) = free_port_lem binds (suc p) n q (rw taken at e) in
      (omega (arith, from), omega (arith, to), free)
]
