-- ===== src/Ipc/Listing/Room.antt =====
-- What fits into the caller's buffer.
use kdeconnect_nx.Prelude.{List, [], ◌∷◌, ◌≡◌, refl, arith, map, length}
use kdeconnect_nx.Client.State.{Client}

length-map : {A B : Type 0} (f : A → B) (xs : List A) → length (map f xs) ≡ length xs
length-map f [] = refl
length-map f (x ∷ xs) = omega (arith, length-map f xs)
