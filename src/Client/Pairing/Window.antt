-- ===== src/Client/Pairing/Window.antt =====
-- When a pair request is refused for its timestamp.
use kdeconnect_nx.Prelude.{ℕ, ◌+◌, ◌≤◌, ◌<◌, ◌^◌, false, ◌≡◌, ◌⊎◌, ◌↔◌, arith}
use kdeconnect_nx.Prelude.Int.{ℤ, pos, negsuc, pos_part, neg_part, ◌-ℤ◌, IsInt64, wrap64, llabs}
use kdeconnect_nx.Client.Pairing.{is_skewed}

-- At most `n` seconds lie between the two.
abbrev pub IsWithin : ℕ → ℤ → ℤ → Type 0
IsWithin n a b =
    (pos_part a + neg_part b ≤ pos_part b + neg_part a + n)
    × (pos_part b + neg_part a ≤ pos_part a + neg_part b + n)

-- With the clock between the epoch and 2 ^ 62, a request passes exactly if it carries no timestamp, if its
-- timestamp lies within the window, or if it lies 2 ^ 63 seconds before the clock: that difference
-- wraps to the one value that `llabs` leaves negative.
pub is_skewed-eq-false :
    (now : ℕ) (timestamp : ℤ)
    → now < 2 ^ 62
    → IsInt64 timestamp
    → (is_skewed (pos now) timestamp ≡ false) ↔ (
        (timestamp ≡ pos 0)
        ⊎ (IsWithin 1800 (pos now) timestamp
            ⊎ (now + neg_part timestamp ≡ pos_part timestamp + 2 ^ 63)))
unfolding is_skewed ◌-ℤ◌ wrap64 llabs
is_skewed-eq-false now (pos n) h fits = (ground arith, ground arith)
is_skewed-eq-false now (negsuc n) h fits = (ground arith, ground arith)
