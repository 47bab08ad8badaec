-- ===== src/Json/Written.antt =====
-- Reading back the text of a body.
use kdeconnect_nx.Prelude.{
  Text, Bool, false, none, some, [], ◌∷◌, ◌++◌, ◌≡◌, ◌≢◌, refl, arith, All-append, concat_ne,
  c_str_lem, is_empty,
}
use kdeconnect_nx.Json.Yyjson.{Yyjson}
use kdeconnect_nx.Json.Body
use kdeconnect_nx.Json.Body.{JsonBody}
use kdeconnect_nx.Json.Setters.{dump}
use kdeconnect_nx.Json.Fields.{IsObject}

module _ (y : Yyjson) where
  open y use {Val}

  -- The library has memory for the text of the body, which is `s`.
  abbrev pub Writes : Bool → JsonBody y → Text → Type 0
  Writes pretty none s = ⊥
  Writes pretty (some v) s = y.write pretty v ≡ some s

  written_ne : (pretty : Bool) (v : Val) (s : Text) → y.write pretty v ≡ some s → is_empty s ≡ false
  written_ne pretty v [] w = cc (y.write-read pretty v w, y.read-nil)
  written_ne pretty v (c ∷ s) w = refl

  pub dump_lem :
      (pretty : Bool) (b : JsonBody y) (s : Text) → Writes pretty b s → dump y pretty b ≡ s
  unfolding dump
  dump_lem pretty none s w = absurd w
  dump_lem pretty (some v) s w = rw w

  -- A body comes back from the text that was written of it, which is not empty.
  pub parse_written :
      (pretty : Bool) (b : JsonBody y) (s : Text)
      → IsObject y b
      → Writes pretty b s
      → (is_empty s ≡ false) × (Body.parse y s ≡ b)
  unfolding Body.parse
  parse_written pretty none s obj w = absurd w
  parse_written pretty (some v) s obj w =
      let ne = written_ne pretty v s w in
      (ne, rw (c_str_lem s (y.write-HasNoNul pretty v w), ne, y.write-read pretty v w, obj))

  -- So it does with a line end behind the text.
  pub parse_line :
      (pretty : Bool) (b : JsonBody y) (s : Text)
      → IsObject y b
      → Writes pretty b s
      → Body.parse y (s ++ b'\n' ∷ []) ≡ b
  unfolding Body.parse
  parse_line pretty none s obj w = absurd w
  parse_line pretty (some v) s obj w =
      let whole =
        c_str_lem (s ++ b'\n' ∷ [])
          (All-append (λ c. c ≢ 0) s (b'\n' ∷ []) (y.write-HasNoNul pretty v w) (omega arith)) in
      let line_ne : is_empty (s ++ b'\n' ∷ []) ≡ false = concat_ne s b'\n' in
      rw (whole, line_ne, y.write-read_line pretty v w, obj)
