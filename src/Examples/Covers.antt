-- ===== src/Examples/Covers.antt =====
-- A full cache of covers, and one more.
use kdeconnect_nx.Prelude.{Text, List, [], ◌∷◌, ◌++◌, ◌≡◌, ◌≢◌, refl, arith, take, drop, eq_text}
use kdeconnect_nx.AlbumArt.{Covers, lru_touch}
use kdeconnect_nx.AlbumArt.Recency.{without, IsDistinct, lru_touch_lem}

abbrev ten : List Text
ten =
    (1 ∷ [])
    ∷ (2 ∷ [])
    ∷ (3 ∷ [])
    ∷ (4 ∷ [])
    ∷ (5 ∷ [])
    ∷ (6 ∷ [])
    ∷ (7 ∷ [])
    ∷ (8 ∷ [])
    ∷ (9 ∷ [])
    ∷ (10 ∷ [])
    ∷ []

abbrev covers : Covers
covers = record { lru = ten; removed = [] }

ten-IsDistinct : IsDistinct ten
unfolding eq_text
ten-IsDistinct = (refl, (refl, (refl, (refl, (refl, (refl, (refl, (refl, (refl, (refl, tt))))))))))

abbrev new : Text
new = 11 ∷ []

eleventh : new ≢ []
eleventh e = cc

lru_touch_lem_example : lru_touch new covers ≡ record {
  lru = take 10 (new ∷ without new ten);
  removed = [] ++ drop 10 (new ∷ without new ten);
}
lru_touch_lem_example = lru_touch_lem new covers eleventh (omega arith) ten-IsDistinct
