-- ===== src/Plugins/Notifications/Posting/Naming.antt =====
-- The names of the files, and the size of the font.
use kdeconnect_nx.Prelude.{
  ℕ, ◌/◌, ◌≤◌, ◌<◌, ◌⊎◌, inl, inr, Text, true, ◌||◌, [], ◌∷◌, ◌≡◌, refl, ap, arith, ◌==◌, All,
  length,
}
use native.Mathlib.Nat.{le-div_iff_mul-le, div-lt_iff_lt-mul, div-mul-le_self, mul-le-mul_left}
use kdeconnect_nx.Prelude.Int.{pos}
use kdeconnect_nx.Plugins.Notifications.Posting.{
  is_alnum, sanitize, sanitize_filename, dynamic_size,
}

-- A byte that is kept in a file's name: a letter, a digit, `-` or `_`. None of them separates folders.
abbrev pub IsSafe : ℕ → Type 0
IsSafe c = (is_alnum c || c == b'-' || c == b'_') ≡ true

sanitize-IsSafe : (c : ℕ) → IsSafe (sanitize c)
unfolding sanitize is_alnum
sanitize-IsSafe c = ground arith

sanitize_safe : (c : ℕ) → IsSafe c → sanitize c ≡ c
unfolding sanitize
sanitize_safe c h = ground (arith, h)

-- Whatever id a notification has, its file's name has only safe bytes, as many as the id, and an id of
-- safe bytes is the name unchanged.
pub sanitize_filename_lem :
    (id : Text)
    → All IsSafe (sanitize_filename id)
      × (length (sanitize_filename id) ≡ length id)
      × (All IsSafe id → sanitize_filename id ≡ id)
unfolding sanitize_filename
sanitize_filename_lem [] = (tt, refl, λ h. refl)
sanitize_filename_lem (c ∷ id) =
    let rest = sanitize_filename_lem id in
    (
      (sanitize-IsSafe c, rest.0),
      omega (arith, rest.1),
      λ h. rw (rest.2 h.1) (ap (λ b. b ∷ id) (sanitize_safe c h.0)),
    )

-- The quotient does not grow with the divisor.
div-antitone : (a m n : ℕ) → 0 < m → m ≤ n → a / n ≤ a / m
div-antitone a m n positive le =
    (le-div_iff_mul-le positive).1 (omega (arith, div-mul-le_self a n, mul-le-mul_left (a / n) le))

dynamic_size_cases :
    (len : ℕ)
    → ((len ≤ 90) × (dynamic_size (pos len) ≡ 24))
      ⊎ ((90 < len) × (dynamic_size (pos len) ≡ 2160 / len) × (16 ≤ 2160 / len))
      ⊎ ((90 < len) × (dynamic_size (pos len) ≡ 16) × (2160 / len < 16))
unfolding dynamic_size
dynamic_size_cases len = ground arith

scaled_small : (len : ℕ) → 90 < len → 2160 / len < 25
scaled_small len long =
    (div-lt_iff_lt-mul {k = len} {x = 2160} {y = 25} (omega (arith, long))).1 (omega (arith, long))

dynamic_size_range : (len : ℕ) → (16 ≤ dynamic_size (pos len)) × (dynamic_size (pos len) ≤ 24)
dynamic_size_range len = elim (dynamic_size_cases len) [
  | inl (short, e) ↦ (omega (arith, e), omega (arith, e))
  | inr (inl (long, e, big)) ↦ (omega (arith, e, big), omega (arith, e, scaled_small len long))
  | inr (inr (long, e, small)) ↦ (omega (arith, e), omega (arith, e))
]

-- The font has a size from 16 to 24, and a longer text never gets a larger one.
pub dynamic_size-bounds :
    (m n : ℕ)
    → m ≤ n
    → (16 ≤ dynamic_size (pos n))
      × (dynamic_size (pos m) ≤ 24)
      × (dynamic_size (pos n) ≤ dynamic_size (pos m))
dynamic_size-bounds m n le = (
  (dynamic_size_range n).0,
  (dynamic_size_range m).1,
  elim (dynamic_size_cases m) [
    | inl (short, e) ↦ omega (arith, e, (dynamic_size_range n).1)
    | inr (inl (long, e, big)) ↦ elim (dynamic_size_cases n) [
      | inl (short, f) ↦ omega (arith, le, long, short)
      | inr (inl (longer, f, bigger)) ↦
          omega (arith, e, f, div-antitone 2160 m n (omega (arith, long)) le)
      | inr (inr (longer, f, small)) ↦ omega (arith, e, f, big)
    ]
    | inr (inr (long, e, small)) ↦ elim (dynamic_size_cases n) [
      | inl (short, f) ↦ omega (arith, le, long, short)
      | inr (inl (longer, f, bigger)) ↦
          omega (arith, bigger, small, div-antitone 2160 m n (omega (arith, long)) le)
      | inr (inr (longer, f, small')) ↦ omega (arith, e, f)
    ]
  ],
)
