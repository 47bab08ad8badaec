-- ===== src/Tls/Hex.antt =====
-- The ids that devices generate, as texts.
use kdeconnect_nx.Prelude.{
  ℕ, zero, suc, ◌+◌, ◌-◌, ◌*◌, ◌/◌, ◌%◌, ◌<◌, Text, bytes, Bool, true, ◌&&◌, ◌||◌, List, [], ◌∷◌,
  ◌≡◌, refl, sym, ap, ◌∙◌, arith, leb, ◌==◌, if◌then◌else◌, get_or, length, All,
}
use kdeconnect_nx.Tls.{hex_digits, generate_device_id}

-- Over a small range, every value is checked by evaluation.
all_below : ℕ → (ℕ → Bool) → Bool
all_below zero p = true
all_below (suc n) p = p n && all_below n p

all_below_lem : (n : ℕ) (p : ℕ → Bool) (x : ℕ) → all_below n p ≡ true → x < n → p x ≡ true
unfolding all_below
all_below_lem zero p x h lt = absurd (omega arith)
all_below_lem (suc n) p x h lt = ground (arith, all_below_lem n p x)

abbrev pub is_hex_digit : ℕ → Bool
is_hex_digit c = (leb b'0' c && leb c b'9') || (leb b'a' c && leb c b'f')

abbrev digit : ℕ → ℕ
digit n = get_or (bytes "0123456789abcdef") n 0

-- What a digit stands for.
abbrev digit_value : ℕ → ℕ
digit_value c = if leb c b'9' then c - b'0' else c - b'a' + 10

digit-is_hex_digit : (n : ℕ) → n < 16 → is_hex_digit (digit n) ≡ true
unfolding all_below bytes
digit-is_hex_digit n h = all_below_lem 16 (λ k. is_hex_digit (digit k)) n refl h

digit_value-digit : (n : ℕ) → n < 16 → (digit_value (digit n) == n) ≡ true
unfolding all_below bytes
digit_value-digit n h = all_below_lem 16 (λ k. digit_value (digit k) == k) n refl h

value_of_digit : (n : ℕ) → n < 16 → digit_value (digit n) ≡ n
value_of_digit n h = ground (arith, digit_value-digit n h)

abbrev pub IsByte : ℕ → Type 0
IsByte b = b < 256

pub generate_device_id-All :
    (bs : List ℕ) → All (λ c. is_hex_digit c ≡ true) (generate_device_id bs)
unfolding generate_device_id hex_digits
generate_device_id-All [] = tt
generate_device_id-All (b ∷ bs) = (
  digit-is_hex_digit (b / 16 % 16) (omega arith),
  (digit-is_hex_digit (b % 16) (omega arith), generate_device_id-All bs),
)

pub length-generate_device_id : (bs : List ℕ) → length (generate_device_id bs) ≡ 2 * length bs
unfolding generate_device_id hex_digits
length-generate_device_id [] = refl
length-generate_device_id (b ∷ bs) = omega (arith, length-generate_device_id bs)

byte_value :
    (b : ℕ) → IsByte b → digit_value (digit (b / 16 % 16)) * 16 + digit_value (digit (b % 16)) ≡ b
byte_value b h =
    omega (arith, value_of_digit (b / 16 % 16) (omega arith), value_of_digit (b % 16) (omega arith))

decode : Text → List ℕ
decode [] = []
decode (c ∷ []) = []
decode (c ∷ (d ∷ t)) = (digit_value c * 16 + digit_value d) ∷ decode t

decode-generate_device_id : (bs : List ℕ) → All IsByte bs → decode (generate_device_id bs) ≡ bs
unfolding generate_device_id hex_digits decode
decode-generate_device_id [] h = refl
decode-generate_device_id (b ∷ bs) h =
    ap (λ v. v ∷ decode (generate_device_id bs)) (byte_value b h.0)
    ∙ ap (◌∷◌ b) (decode-generate_device_id bs h.1)

-- Two devices have the same id only if their random bytes are the same.
pub generate_device_id-injective :
    (bs cs : List ℕ)
    → All IsByte bs
    → All IsByte cs
    → generate_device_id bs ≡ generate_device_id cs
    → bs ≡ cs
generate_device_id-injective bs cs hb hc e =
    sym (decode-generate_device_id bs hb) ∙ (ap decode e ∙ decode-generate_device_id cs hc)
