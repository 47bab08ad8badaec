-- ===== src/Storage/Folder/Listed.antt =====
-- Which devices are listed.
use kdeconnect_nx.Prelude.{
  Text, bytes, true, false, some, List, [], ◌∷◌, ◌++◌, ◌==◌, ◌≡◌, ◌∙◌, map, refl, ap, eq_text_refl,
  All, All-append, arith,
}
use kdeconnect_nx.Storage.Folder.{
  after_slash, cut, before_dot, or_name, path_stem, ends_with, list_paired_device_ids,
}

-- An id that names a file of the folder.
abbrev pub IsFileName : Text → Type 0
IsFileName t = All (λ c. (c == b'/') ≡ false) t

after_slash_none : (name t : Text) → IsFileName t → after_slash name t ≡ name
unfolding after_slash
after_slash_none name [] h = refl
after_slash_none name (c ∷ t) h = rw h.0 (after_slash_none name t h.1)

before_dot-append : (id : Text) → before_dot (id ++ bytes ".json") ≡ some id
unfolding before_dot cut bytes
before_dot-append [] = refl
before_dot-append (c ∷ id) = rw (before_dot-append id) refl

json-IsFileName : IsFileName (bytes ".json")
unfolding bytes
json-IsFileName = (refl, (refl, (refl, (refl, (refl, tt)))))

ends_with-append : (id suffix : Text) → ends_with (id ++ suffix) suffix ≡ true
unfolding ends_with
ends_with-append [] [] = eq_text_refl []
ends_with-append [] (c ∷ s) = rw (eq_text_refl (c ∷ s)) refl
ends_with-append (c ∷ id) suffix = ground (arith, ends_with-append id suffix)

path_stem-append : (id : Text) → IsFileName id → path_stem (id ++ bytes ".json") ≡ id
unfolding path_stem or_name
path_stem-append id h =
    rw
      (
        after_slash_none (id ++ bytes ".json") (id ++ bytes ".json")
            (All-append (λ c. (c == b'/') ≡ false) id (bytes ".json") h json-IsFileName),
        before_dot-append id,
      )
      refl

-- A file that was saved for a device whose id has no slash is listed under this id, dots included.
pub list_paired_device_ids-saved :
    (id : Text) (names : List Text)
    → IsFileName id
    → list_paired_device_ids ((id ++ bytes ".json") ∷ names) ≡ id ∷ list_paired_device_ids names
unfolding list_paired_device_ids
list_paired_device_ids-saved id names h =
    rw (ends_with-append id (bytes ".json"), path_stem-append id h) refl

-- What does not end in `.json` is not listed.
pub list_paired_device_ids-other :
    (name : Text) (names : List Text)
    → ends_with name (bytes ".json") ≡ false
    → list_paired_device_ids (name ∷ names) ≡ list_paired_device_ids names
unfolding list_paired_device_ids
list_paired_device_ids-other name names h = rw h refl

-- A folder that holds just the files of some devices, whose ids have no slash, lists these devices.
pub list_paired_device_ids-map :
    (ids : List Text)
    → All IsFileName ids
    → list_paired_device_ids (map (λ id. id ++ bytes ".json") ids) ≡ ids
unfolding list_paired_device_ids
list_paired_device_ids-map [] h = refl
list_paired_device_ids-map (id ∷ ids) h =
    list_paired_device_ids-saved id (map (λ i. i ++ bytes ".json") ids) h.0
    ∙ ap (◌∷◌ id) (list_paired_device_ids-map ids h.1)
