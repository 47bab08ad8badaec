-- ===== src/Client/Key.antt =====
-- `verification_key` and the functions that it is made of. The digest is mbedtls's, which is not in
-- the repository: `sha256_hex_upper` is a parameter.
use kdeconnect_nx.Prelude.{
  ℕ, zero, suc, ◌+◌, ◌/◌, ◌%◌, Text, bytes, Bool, true, false, not, ◌&&◌, ◌||◌, [], ◌∷◌, ◌++◌, ◌≡◌,
  refl, arith, if◌then◌else◌, ltb, leb, is_empty, length, take, ◌⊎◌, inl, inr,
}
use kdeconnect_nx.Prelude.Int.{ℤ, pos, negsuc, eq_ℤ}

-- `std::lexicographical_compare`
unfoldable pub lexicographical_compare : Text → Text → Bool
lexicographical_compare [] [] = false
lexicographical_compare [] (y ∷ ys) = true
lexicographical_compare (x ∷ xs) [] = false
lexicographical_compare (x ∷ xs) (y ∷ ys) =
    ltb x y || (not (ltb y x) && lexicographical_compare xs ys)

-- `std::to_string`: a number below 10 ^ fuel is printed whole.
digits_of : ℕ → ℕ → Text → Text
digits_of zero n acc = acc
digits_of (suc fuel) n acc =
    let rest = digits_of fuel (n / 10) ((b'0' + n % 10) ∷ acc) in
    if ltb n 10 then (b'0' + n) ∷ acc else rest

-- Twenty digits are enough for every `long`.
unfoldable pub to_string : ℤ → Text
unfolding digits_of
to_string (pos n) = digits_of 20 n []
to_string (negsuc n) = b'-' ∷ digits_of 20 (suc n) []

unfoldable pub uppercase_first8 : Text → Text
uppercase_first8 hex = if leb (length hex) 8 then hex else take 8 hex

module _ (sha256_hex_upper : Text → Text) where
  -- The larger key comes first.
  unfoldable pub combined_keys : Text → Text → Text
  combined_keys a b = if lexicographical_compare a b then b ++ a else a ++ b

  unfoldable pub verification_key : Text → Text → ℤ → Text
  unfolding combined_keys
  verification_key a b timestamp =
      let stamp = if eq_ℤ timestamp (pos 0) then [] else to_string timestamp in
      if is_empty a || is_empty b
      then bytes "<ERROR>"
      else uppercase_first8 (sha256_hex_upper (combined_keys a b ++ stamp))

  -- Of two different keys exactly one is below the other.
  lexicographical_compare_total :
      (a b : Text) → (a ≡ b) ⊎ (lexicographical_compare a b ≡ not (lexicographical_compare b a))
  unfolding lexicographical_compare
  lexicographical_compare_total [] [] = inl refl
  lexicographical_compare_total [] (y ∷ ys) = inr refl
  lexicographical_compare_total (x ∷ xs) [] = inr refl
  lexicographical_compare_total (x ∷ xs) (y ∷ ys) =
      ground (arith, lexicographical_compare_total xs ys)

  combined_keys_comm : (a b : Text) → combined_keys a b ≡ combined_keys b a
  unfolding combined_keys
  combined_keys_comm a b = ground (arith, lexicographical_compare_total a b)

  -- Both devices show the same key for the same timestamp, whichever of them computes it.
  pub verification_key_comm :
      (a b : Text) (timestamp : ℤ) → verification_key a b timestamp ≡ verification_key b a timestamp
  unfolding verification_key
  verification_key_comm a b timestamp = ground (arith, combined_keys_comm a b)
