-- ===== src/Plugins/Volume/Levels.antt =====
-- Levels as a percentage, and back.
use kdeconnect_nx.Prelude.{ℕ, ◌*◌, ◌+◌, ◌/◌, ◌<◌, ◌≤◌, ◌^◌, ◌≡◌, arith}
use kdeconnect_nx.Prelude.Int.{pos, ◌*ℤ◌, quot_ℤ, wrap32_lem}
use native.Mathlib.Nat.{div-le_of_le-mul, mul-div-le, lt-mul-div-succ}
use kdeconnect_nx.Plugins.Volume.{percent, raw_level}

percent_pos :
    (raw max : ℕ)
    → raw * 100 < 2 ^ 31
    → 0 < max
    → percent (pos raw) (pos max) ≡ pos (raw * 100 / max)
unfolding percent ◌*ℤ◌ quot_ℤ
percent_pos raw max small some_max = rw (wrap32_lem (pos (raw * 100)) (omega arith)) (ground arith)

raw_level_pos :
    (volume max : ℕ)
    → volume * max < 2 ^ 31
    → raw_level (pos volume) (pos max) ≡ pos (volume * max / 100)
unfolding raw_level ◌*ℤ◌ quot_ℤ
raw_level_pos volume max small = rw (wrap32_lem (pos (volume * max)) (omega arith))

-- The product of two factors, and what the division by the first leaves.
level_bounds :
    (raw max v l : ℕ)
    → raw * 100 < v * max + max
    → v * max ≤ raw * 100
    → l * 100 ≤ v * max
    → v * max < l * 100 + 100
    → (l ≤ raw) × (raw ≤ l + (max + 99) / 100)
level_bounds raw max v l a b c d = (omega arith, omega arith)

-- The level of a sink between 0 and a positive maximum of at most 21474836, on which the product by
-- 100 fits an `int`, is stored as a percentage from 0 to 100. To ask for that percentage asks for a
-- level that is not above the old one, and below it by at most a hundredth of the maximum, rounded up.
pub raw_level-percent :
    (raw max : ℕ)
    → 0 < max
    → max ≤ 21474836
    → raw ≤ max
    → (v : ℕ) × (l : ℕ) × (percent (pos raw) (pos max) ≡ pos v)
      × (v ≤ 100)
      × (raw_level (pos v) (pos max) ≡ pos l)
      × (l ≤ raw)
      × (raw ≤ l + (max + 99) / 100)
raw_level-percent raw max some_max bound below =
    let v = raw * 100 / max in
    let l = v * max / 100 in
    let hundred : v ≤ 100 = div-le_of_le-mul max (omega arith) in
    let low : max * v ≤ raw * 100 = mul-div-le (raw * 100) max in
    let high : raw * 100 < max * (v + 1) = lt-mul-div-succ (raw * 100) some_max in
    let near =
      level_bounds raw max v l (grind (arith, high)) (grind (arith, low)) (omega arith)
        (omega arith) in
    (
      v,
      l,
      percent_pos raw max (omega arith) some_max,
      hundred,
      raw_level_pos v max (grind (arith, low)),
      near.0,
      near.1,
    )
