-- ===== src/Ipc/Wire/Fields.antt =====
-- Single fields of what goes over the wire: texts in arrays, integers, bytes and flags.
use kdeconnect_nx.Prelude.{
  ℕ, zero, suc, ◌-◌, ◌*◌, ◌/◌, ◌^◌, ◌<◌, Text, c_str, HasNoNul, Bool, true, false, [], ◌∷◌, ◌++◌,
  ◌≡◌, refl, ap, ◌∙◌, arith, take, drop, length,
}
use kdeconnect_nx.Prelude.Int.{ℤ, pos, negsuc, pattern_of, wrap32, wrap64, IsInt32, IsInt64}
use kdeconnect_nx.Ipc.Wire.{
  pad_to, strncpy, field_text, le_bytes, of_le, int32_bytes, int64_bytes, field_int32, field_int64,
  field_byte, field_bool, bool_byte,
}

pub length-pad_to : (n : ℕ) (t : Text) → length (pad_to n t) ≡ n
unfolding pad_to
length-pad_to zero t = refl
length-pad_to (suc n) [] = omega (arith, length-pad_to n [])
length-pad_to (suc n) (c ∷ t) = omega (arith, length-pad_to n t)

pub length-strncpy : (n : ℕ) (s : Text) → length (strncpy n s) ≡ n
unfolding strncpy
length-strncpy n s = length-pad_to n (take (n - 1) (c_str s))

-- A field within what follows others.
drop-append : (xs ys : Text) (n : ℕ) → length xs ≡ n → drop n (xs ++ ys) ≡ ys
drop-append [] ys n h = rw (← h) refl
drop-append (x ∷ xs) ys zero h = absurd (omega (arith, h))
drop-append (x ∷ xs) ys (suc n) h = drop-append xs ys n (omega (arith, h))

take-append : (xs ys : Text) (n : ℕ) → length xs ≡ n → take n (xs ++ ys) ≡ xs
take-append [] ys n h = rw (← h) refl
take-append (x ∷ xs) ys zero h = absurd (omega (arith, h))
take-append (x ∷ xs) ys (suc n) h = ap (◌∷◌ x) (take-append xs ys n (omega (arith, h)))

c_str-HasNoNul : (s : Text) → HasNoNul (c_str s)
unfolding c_str
c_str-HasNoNul [] = tt
c_str-HasNoNul (c ∷ s) = ground (arith, c_str-HasNoNul s)

c_str-pad_to : (m n : ℕ) (t : Text) → m < n → HasNoNul t → c_str (pad_to n (take m t)) ≡ take m t
unfolding c_str pad_to
c_str-pad_to m zero t lt h = absurd (omega (arith, lt))
c_str-pad_to zero (suc n) t lt h = refl
c_str-pad_to (suc m) (suc n) [] lt h = refl
c_str-pad_to (suc m) (suc n) (c ∷ t) lt h =
    ground (arith, c_str-pad_to m n t (omega (arith, lt)) h.1, h.0)

-- A text in an array comes back cut after the first NUL and to what fits beside one.
strncpy_text : (n : ℕ) (s : Text) → 0 < n → c_str (strncpy n s) ≡ take (n - 1) (c_str s)
unfolding strncpy
strncpy_text n s h = c_str-pad_to (n - 1) n (c_str s) (omega (arith, h)) (c_str-HasNoNul s)

-- The field behind a prefix of known length.
pub field_text-strncpy :
    (before after s : Text) (offset n : ℕ)
    → length before ≡ offset
    → 0 < n
    → field_text offset n (before ++ (strncpy n s ++ after)) ≡ take (n - 1) (c_str s)
unfolding field_text
field_text-strncpy before after s offset n at h =
    ap (λ t. c_str (take n t)) (drop-append before (strncpy n s ++ after) offset at)
    ∙ (ap c_str (take-append (strncpy n s) after n (length-strncpy n s)) ∙ strncpy_text n s h)

pow_suc : (n : ℕ) → 256 ^ suc n ≡ 256 * 256 ^ n
pow_suc n = omega arith

of_le-le_bytes : (n v : ℕ) → v < 256 ^ n → of_le (le_bytes n v) ≡ v
unfolding of_le le_bytes
of_le-le_bytes zero v h = omega (arith, h)
of_le-le_bytes (suc n) v h =
    let small : v / 256 < 256 ^ n = omega (arith, pow_suc n, h) in
    omega (arith, of_le-le_bytes n (v / 256) small)

length-le_bytes : (n v : ℕ) → length (le_bytes n v) ≡ n
unfolding le_bytes
length-le_bytes zero v = refl
length-le_bytes (suc n) v = omega (arith, length-le_bytes n (v / 256))

signed_pattern32 : (v : ℤ) → IsInt32 v → wrap32 (pos (pattern_of (2 ^ 32) v)) ≡ v
unfolding wrap32
signed_pattern32 (pos n) h = ground arith
signed_pattern32 (negsuc n) h = ground arith

signed_pattern64 : (v : ℤ) → IsInt64 v → wrap64 (pos (pattern_of (2 ^ 64) v)) ≡ v
unfolding wrap64
signed_pattern64 (pos n) h = ground arith
signed_pattern64 (negsuc n) h = ground arith

pub length-int32_bytes : (v : ℤ) → length (int32_bytes v) ≡ 4
unfolding int32_bytes
length-int32_bytes v = length-le_bytes 4 (pattern_of (2 ^ 32) v)

pub length-int64_bytes : (v : ℤ) → length (int64_bytes v) ≡ 8
unfolding int64_bytes
length-int64_bytes v = length-le_bytes 8 (pattern_of (2 ^ 64) v)

pattern_lt : (v : ℤ) → (pattern_of (2 ^ 32) v < 256 ^ 4) × (pattern_of (2 ^ 64) v < 256 ^ 8)
pattern_lt (pos n) = omega arith
pattern_lt (negsuc n) = omega arith

of_le-int32_bytes : (v : ℤ) → of_le (int32_bytes v) ≡ pattern_of (2 ^ 32) v
unfolding int32_bytes
of_le-int32_bytes v = of_le-le_bytes 4 _ (pattern_lt v).0

of_le-int64_bytes : (v : ℤ) → of_le (int64_bytes v) ≡ pattern_of (2 ^ 64) v
unfolding int64_bytes
of_le-int64_bytes v = of_le-le_bytes 8 _ (pattern_lt v).1

pub field_int32-int32_bytes :
    (before after : Text) (offset : ℕ) (v : ℤ)
    → length before ≡ offset
    → IsInt32 v
    → field_int32 offset (before ++ (int32_bytes v ++ after)) ≡ v
unfolding field_int32
field_int32-int32_bytes before after offset v at fits =
    ap (λ t. wrap32 (pos (of_le (take 4 t))))
      (drop-append before (int32_bytes v ++ after) offset at)
    ∙ (ap (λ t. wrap32 (pos (of_le t))) (take-append (int32_bytes v) after 4 (length-int32_bytes v))
        ∙ (ap (λ k. wrap32 (pos k)) (of_le-int32_bytes v) ∙ signed_pattern32 v fits))

pub field_int64-int64_bytes :
    (before after : Text) (offset : ℕ) (v : ℤ)
    → length before ≡ offset
    → IsInt64 v
    → field_int64 offset (before ++ (int64_bytes v ++ after)) ≡ v
unfolding field_int64
field_int64-int64_bytes before after offset v at fits =
    ap (λ t. wrap64 (pos (of_le (take 8 t))))
      (drop-append before (int64_bytes v ++ after) offset at)
    ∙ (ap (λ t. wrap64 (pos (of_le t))) (take-append (int64_bytes v) after 8 (length-int64_bytes v))
        ∙ (ap (λ k. wrap64 (pos k)) (of_le-int64_bytes v) ∙ signed_pattern64 v fits))

pub field_byte-append :
    (before after : Text) (offset c : ℕ)
    → length before ≡ offset
    → field_byte offset (before ++ c ∷ after) ≡ c
unfolding field_byte
field_byte-append [] after offset c at = rw (← at) refl
field_byte-append (x ∷ before) after zero c at = absurd (omega (arith, at))
field_byte-append (x ∷ before) after (suc offset) c at =
    field_byte-append before after offset c (omega (arith, at))

pub field_bool-append :
    (before after : Text) (offset : ℕ) (b : Bool)
    → length before ≡ offset
    → field_bool offset (before ++ bool_byte b ∷ after) ≡ b
unfolding field_bool
field_bool-append before after offset true at = rw (field_byte-append before after offset 1 at) refl
field_bool-append before after offset false at =
    rw (field_byte-append before after offset 0 at) refl
