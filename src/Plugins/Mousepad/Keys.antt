-- ===== src/Plugins/Mousepad/Keys.antt =====
-- Which keys are down while a press is held.
use kdeconnect_nx.Prelude.{
  ℕ, zero, suc, ◌+◌, ◌*◌, ◌/◌, ◌%◌, Bool, true, false, ◌&&◌, ◌||◌, ◌≡◌, refl, arith, ◌==◌,
}
use kdeconnect_nx.Plugins.Mousepad.{Press, set_bit, set_key, set_key_if, pressed_keys}

-- Bit `b` of a word.
abbrev pub bit : ℕ → ℕ → Bool
bit zero word = word % 2 == 1
bit (suc b) word = bit b (word / 2)

-- Whether the key of a usage is down.
abbrev pub key_down : (ℕ → ℕ) → ℕ → Bool
key_down keys usage = bit (usage % 64) (keys (usage / 64))

bit-set_bit : (b c word : ℕ) → bit c (set_bit b word) ≡ (c == b) || bit c word
unfolding set_bit
bit-set_bit zero zero word = ground arith
bit-set_bit zero (suc c) word =
    let half : (2 * (word / 2) + 1) / 2 ≡ word / 2 = omega arith in rw half (ground arith)
bit-set_bit (suc b) zero word = ground arith
bit-set_bit (suc b) (suc c) word =
    let half : (2 * set_bit b (word / 2) + word % 2) / 2 ≡ set_bit b (word / 2) = omega arith in
    rw half (ground (arith, bit-set_bit b c (word / 2)))

key_down-set_key :
    (v u : ℕ) (keys : ℕ → ℕ) → key_down (set_key v keys) u ≡ (u == v) || key_down keys u
unfolding set_key
key_down-set_key v u keys = ground (arith, bit-set_bit (v % 64) (u % 64) (keys (u / 64)))

key_down-set_key_if :
    (b : Bool) (v u : ℕ) (keys : ℕ → ℕ)
    → key_down (set_key_if b v keys) u ≡ b && u == v || key_down keys u
unfolding set_key_if
key_down-set_key_if true v u keys = key_down-set_key v u keys
key_down-set_key_if false v u keys = refl

no_keys : (u : ℕ) → key_down (λ i. 0) u ≡ false
no_keys u = bit_zero (u % 64)
  where
    bit_zero : (b : ℕ) → bit b 0 ≡ false
    bit_zero zero = refl
    bit_zero (suc b) = bit_zero b

-- While a press is held exactly its key is down and the keys of its modifiers: left Control, left
-- Shift, left Alt, left GUI and AltGr.
pub key_down-pressed_keys :
    (p : Press) (u : ℕ)
    → key_down (pressed_keys p) u
      ≡ p.altgr && u == 0xE5
        || (p.gui && u == 0xE3
            || (p.alt && u == 0xE2
                || (p.shift && u == 0xE1 || (p.ctrl && u == 0xE0 || u == p.hid_code))))
unfolding pressed_keys
key_down-pressed_keys p u =
    rw
      (
        key_down-set_key_if p.altgr 0xE5 u,
        key_down-set_key_if p.gui 0xE3 u,
        key_down-set_key_if p.alt 0xE2 u,
        key_down-set_key_if p.shift 0xE1 u,
        key_down-set_key_if p.ctrl 0xE0 u,
        key_down-set_key p.hid_code u,
        no_keys u,
      )
      (ground arith)
