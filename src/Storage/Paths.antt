-- ===== src/Storage/Paths.antt =====
-- The file of a paired device determines the device.
use kdeconnect_nx.Prelude.{
  Text, bytes, false, [], ◌∷◌, ◌++◌, ◌≡◌, refl, arith, eq_text, eq_text_iff, length, length-append,
  ◌≢◌, ◌∙◌,
}
use kdeconnect_nx.Storage.{paired_path}

eq_text-append_left : (p a b : Text) → eq_text (p ++ a) (p ++ b) ≡ eq_text a b
unfolding eq_text
eq_text-append_left [] a b = refl
eq_text-append_left (c ∷ p) a b = ground (arith, eq_text-append_left p a b)

-- A text is not equal to itself with more in front.
eq_text-length : (a b : Text) → length a ≢ length b → eq_text a b ≡ false
eq_text-length a b h = ground (arith, eq_text_iff a b)

eq_text-append_right : (a b s : Text) → eq_text (a ++ s) (b ++ s) ≡ eq_text a b
unfolding eq_text
eq_text-append_right [] [] s = ground (arith, eq_text_iff s s)
eq_text-append_right [] (c ∷ b) s =
    eq_text-length s (c ∷ (b ++ s)) (omega (arith, length-append b s))
eq_text-append_right (c ∷ a) [] s =
    eq_text-length (c ∷ (a ++ s)) s (omega (arith, length-append a s))
eq_text-append_right (c ∷ a) (d ∷ b) s = ground (arith, eq_text-append_right a b s)

pub eq_text-paired_path :
    (base a b : Text) → eq_text (paired_path base a) (paired_path base b) ≡ eq_text a b
unfolding paired_path
eq_text-paired_path base a b =
    eq_text-append_left base _ _
    ∙ (eq_text-append_left (bytes "/paired/") _ _ ∙ eq_text-append_right a b (bytes ".json"))
