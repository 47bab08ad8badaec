-- ===== src/Packet/Channel.antt =====
-- Packets from the send queue of one device to `handle_packet` of another: `io_loop` of
-- net/kdeconnect_client.cpp sends each packet as a line and reads line by line.
use kdeconnect_nx.Prelude.{
  ℕ, zero, suc, ◌≤◌, ◌<◌, Text, false, none, some, List, [], ◌∷◌, ◌++◌, ◌≡◌, refl, ap, subst, ◌∙◌,
  arith, map, length, IsLine, HasNoNul, All, Option-cases, inl, inr, append_assoc,
}
use kdeconnect_nx.Prelude.Int.{ℤ, IsInt32, IsInt64}
use kdeconnect_nx.Json.Yyjson.{Yyjson}
use kdeconnect_nx.Json.Body.{JsonBody}
use kdeconnect_nx.Json.Fields.{IsObject}
use kdeconnect_nx.Json.Written.{Writes, dump_lem, parse_written}
use kdeconnect_nx.Packet.{NetworkPacket, envelope, serialize, parse}
use kdeconnect_nx.Packet.RoundTrip.{received, envelope-of_root}
use kdeconnect_nx.Stream.{Read, byte, Outcome, line, no_line, waiting, read_line_tls}
use kdeconnect_nx.Stream.Reading.{answered, settled, read_line_tls-answered, read_line_tls-line}

-- The lines that are read one after the other, at most so many.
unfoldable pub read_lines : ℕ → ℕ → List Read → List Text
read_lines zero max es = []
read_lines (suc n) max es = elim (read_line_tls max es) [
  | line t rest ↦ t ∷ read_lines n max rest
  | no_line rest ↦ []
  | waiting t ↦ []
]

-- A read that is settled as a line is that line, and leaves answers that are settled so.
line_settled :
    (o : Outcome) {t : Text} {r : List Read}
    → settled o ≡ line t r
    → (es : List Read) × (o ≡ line t es) × (answered es ≡ r)
line_settled (line u es) h = (es, ground arith, ground arith)
line_settled (no_line es) h = absurd (cc)
line_settled (waiting u) h = absurd (cc)

map-append_byte : (a b : Text) → map byte (a ++ b) ≡ map byte a ++ map byte b
map-append_byte [] b = refl
map-append_byte (c ∷ a) b = ap (◌∷◌ (byte c)) (map-append_byte a b)

read_lines_step :
    (n max : ℕ) (t : Text) (es es' : List Read)
    → read_line_tls max es ≡ line t es'
    → read_lines (suc n) max es ≡ t ∷ read_lines n max es'
unfolding read_lines
read_lines_step n max t es es' e = rw (e, read_lines)

next_line :
    (n max : ℕ) (t rest : Text) (es : List Read)
    → IsLine t
    → length t < max
    → answered es ≡ map byte ((t ++ b'\n' ∷ []) ++ rest)
    → (es' : List Read) × (read_lines (suc n) max es ≡ t ∷ read_lines n max es')
      × (answered es' ≡ map byte rest)
next_line n max t rest es clean small e =
    let bytes_are : answered es ≡ map byte t ++ byte b'\n' ∷ map byte rest =
      e ∙ ap (map byte) (append_assoc t (b'\n' ∷ []) rest) ∙ map-append_byte t (b'\n' ∷ rest) in
    let read : settled (read_line_tls max es) ≡ line t (map byte rest) =
      read_line_tls-answered max es
      ∙ ap (read_line_tls max) bytes_are
      ∙ read_line_tls-line max t (map byte rest) clean small in
    let found = line_settled (read_line_tls max es) read in
    (found.0, read_lines_step n max t es found.0 found.1, found.2)

-- Where there are no bytes there is no line.
no_lines :
    (n max : ℕ) (o : Outcome)
    → settled o ≡ read_line_tls max []
    → ◌≡◌ {A = List Text}
        (elim o [ line t rest ↦ t ∷ read_lines n max rest | no_line rest ↦ [] | waiting t ↦ [] ])
        []
unfolding read_line_tls
no_lines n max (line t es) h = absurd (ground arith)
no_lines n max (no_line es) h = refl
no_lines n max (waiting t) h = refl

read_lines_nil : (n max : ℕ) (es : List Read) → answered es ≡ [] → read_lines n max es ≡ []
unfolding read_lines
read_lines_nil zero max es e = refl
read_lines_nil (suc n) max es e =
    no_lines n max (read_line_tls max es) (read_line_tls-answered max es ∙ ap (read_line_tls max) e)

module _ (y : Yyjson) where
  -- A packet that can be sent whole: its body is an object, its strings and numbers fit, and its line
  -- is written and shorter than the limit.
  pub record IsSendable (max : ℕ) (now : ℤ) (p : NetworkPacket y) : Type 0 where
    pub body_object : IsObject y p.body
    pub type_plain : HasNoNul p.type
    pub size_fits : IsInt64 p.payload_size
    pub port_fits : IsInt32 p.payload_port
    pub text : Text
    pub written : Writes y false (envelope y now p) text
    pub short : length text < max

  -- The bytes on the wire.
  abbrev pub wire : ℤ → List (NetworkPacket y) → Text
  wire now [] = []
  wire now (p ∷ ps) = serialize y now p ++ wire now ps

  text-IsLine : (b : JsonBody y) (s : Text) → Writes y false b s → IsLine s
  text-IsLine none s w = absurd w
  text-IsLine (some v) s w = y.write-IsLine v w

  -- What is read of a line is what was sent.
  parse-text :
      (max : ℕ) (now : ℤ) (p : NetworkPacket y) (s : IsSendable max now p)
      → (serialize y now p ≡ s.text ++ b'\n' ∷ [])
        × IsLine s.text
        × (parse y s.text ≡ some (received y p))
  unfolding serialize parse
  parse-text max now p s = elim (Option-cases p.body) [
    | inl missing ↦ absurd (subst (IsObject y) missing s.body_object)
    | inr (v, e) ↦
        let built =
          envelope-of_root y now p v e (subst (IsObject y) e s.body_object) s.type_plain s.size_fits
            s.port_fits in
        (
          rw (dump_lem y false (envelope y now p) s.text s.written),
          text-IsLine (envelope y now p) s.text s.written,
          rw ((parse_written y false (envelope y now p) s.text built.0 s.written).1) built.1,
        )
  ]

  -- Packets that can be sent whole, one after the other through the connection, arrive in their order,
  -- each once and as it was sent, however the bytes are cut up by timeouts of the reading side.
  pub parse-read_lines :
      (max n : ℕ) (now : ℤ) (ps : List (NetworkPacket y)) (es : List Read)
      → All (IsSendable max now) ps
      → length ps ≤ n
      → answered es ≡ map byte (wire now ps)
      → map (parse y) (read_lines n max es) ≡ map (λ p. some (received y p)) ps
  parse-read_lines max n now [] es ok fuel e = ap (map (parse y)) (read_lines_nil n max es e)
  parse-read_lines max (suc n) now (p ∷ ps) es ok fuel e =
      let sent = parse-text max now p ok.0 in
      let whole : answered es ≡ map byte ((ok.0.text ++ b'\n' ∷ []) ++ wire now ps) =
        e ∙ ap (λ s. map byte (s ++ wire now ps)) sent.0 in
      let next = next_line n max ok.0.text (wire now ps) es sent.1 ok.0.short whole in
      rw (next.1, sent.2, parse-read_lines max n now ps next.0 ok.1 (omega arith) next.2)
  parse-read_lines max zero now (p ∷ ps) es ok fuel e = elim fuel [ ]
