-- ===== src/Client/Discovery/Absent.antt =====
-- Which threads are kept, and which devices are listed as paired but not here.
use kdeconnect_nx.Prelude.{
  Text, Bool, false, some, List, [], ◌∷◌, ◌≡◌, All, Bool-cases, Option-cases, inl, inr,
}
use kdeconnect_nx.Json.Yyjson.{Yyjson}
use kdeconnect_nx.Storage.{Disk, load_paired_device}
use kdeconnect_nx.Client.Discovery.{reap_pending_threads, offline_paired_devices}

-- No thread that is done is kept.
pub reap_pending_threads-All :
    {T : Type 0} (done : T → Bool) (ts : List T)
    → All (λ t. done t ≡ false) (reap_pending_threads done ts)
unfolding reap_pending_threads
reap_pending_threads-All done [] = tt
reap_pending_threads-All {T} done (t ∷ ts) =
    let rest = reap_pending_threads-All done ts in
    elim (Bool-cases (done t)) [ inl on ↦ rw on rest | inr off ↦ rw off (off, rest) ]

-- Every device that is listed is stored on the disk under an id that no session has.
pub offline_paired_devices-All :
    (y : Yyjson) (base : Text) (d : Disk) (active : Text → Bool) (ids : List Text)
    → All
        (λ p. (id : Text) × (active id ≡ false) × (load_paired_device y base d id ≡ some p))
        (offline_paired_devices y base d active ids)
unfolding offline_paired_devices
offline_paired_devices-All y base d active [] = tt
offline_paired_devices-All y base d active (id ∷ ids) =
    let rest = offline_paired_devices-All y base d active ids in
    elim (Bool-cases (active id)) [
      | inl on ↦ rw on rest
      | inr off ↦ elim (Option-cases (load_paired_device y base d id)) [
        | inl missing ↦ rw (off, missing) rest
        | inr (p, stored) ↦ rw (off, stored) ((id, off, stored), rest)
      ]
    ]
