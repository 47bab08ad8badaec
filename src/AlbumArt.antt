-- ===== src/AlbumArt.antt =====
-- utils/album_art.cpp: the order in which covers were used, and the covers that are removed.
pub mod Recency
use kdeconnect_nx.Prelude.{
  ℕ, zero, suc, Text, Bool, true, false, List, [], ◌∷◌, ◌++◌, if◌then◌else◌, eq_text, is_empty, ltb,
  length,
}

-- `s_lru`, the most recent hash first, and the hashes whose files were removed, in order.
pub record Covers : Type 0 where
  pub lru : List Text
  pub removed : List Text

-- `std::ranges::find(s_lru, hash) != s_lru.end()`
abbrev pub contains : Text → List Text → Bool
contains hash [] = false
contains hash (h ∷ hs) = if eq_text h hash then true else contains hash hs

-- `it == s_lru.begin()`
abbrev pub is_first : Text → List Text → Bool
is_first hash [] = false
is_first hash (h ∷ hs) = eq_text h hash

-- `s_lru.erase(it)`: the first occurrence goes.
abbrev pub erase_first : Text → List Text → List Text
erase_first hash [] = []
erase_first hash (h ∷ hs) = if eq_text h hash then hs else h ∷ erase_first hash hs

-- `s_lru.back()` and `s_lru.pop_back()`
abbrev pub back : Text → List Text → Text
back h [] = h
back h (h' ∷ hs) = back h' hs

abbrev pub pop_back : Text → List Text → List Text
pop_back h [] = []
pop_back h (h' ∷ hs) = h ∷ pop_back h' hs

unfoldable pub evict_one : Covers → List Text → Covers
evict_one c [] = c
evict_one c (h ∷ hs) = record { lru = pop_back h hs; removed = c.removed ++ back h hs ∷ [] }

-- The loop, which runs at most once for each hash.
unfoldable pub evict : ℕ → Covers → Covers
evict zero c = c
evict (suc n) c =
    let rest = evict n (evict_one c c.lru) in if ltb 10 (length c.lru) then rest else c

unfoldable pub push : Text → List Text → Covers → Covers
push hash hs c = evict (suc (length hs)) (record c { lru = hash ∷ hs })

unfoldable pub lru_touch : Text → Covers → Covers
lru_touch hash c =
    if is_empty hash
    then c
    else if contains hash c.lru
    then if is_first hash c.lru then c else push hash (erase_first hash c.lru) c
    else push hash c.lru c
