-- ===== src/Plugins/Volume/Muting.antt =====
-- The level that the audio service is asked for.
use kdeconnect_nx.Prelude.{List, [], ◌∷◌}
use kdeconnect_nx.Prelude.Int.{ℤ}
use kdeconnect_nx.Json.Yyjson.{Yyjson}
use kdeconnect_nx.Json.Body
use kdeconnect_nx.Json.Body.{JsonBody}

-- The last volume that the audio service was asked for, or what it had before.
abbrev pub asked_for : ℤ → List ℤ → ℤ
asked_for before [] = before
asked_for before (v ∷ vs) = asked_for v vs
