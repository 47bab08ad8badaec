-- ===== src/Packet/RoundTrip.antt =====
-- A packet that was serialized and parsed again.
use kdeconnect_nx.Prelude.{
  Text, true, false, ◌&&◌, Option, none, some, [], if◌then◌else◌, bytes, ◌≡◌, refl, ◌∙◌, arith,
  HasNoNul, c_str, c_str_lem, Bool-cases, Option-cases, subst, inl, inr, eq_text,
}
use kdeconnect_nx.Prelude.Int.{ℤ, pos, IsInt32, IsInt64, leb_ℤ, ltb_ℤ}
use kdeconnect_nx.Json.Yyjson.{Yyjson}
use kdeconnect_nx.Json.Body
use kdeconnect_nx.Json.Body.{JsonBody, field, upsert}
use kdeconnect_nx.Json.Setters.{set_i64, set_int, set_str, set_obj}
use kdeconnect_nx.Json.Fields.{
  IsObject, empty-IsObject, upsert-IsObject, field-empty, field-upsert_self, field-upsert_ne,
}
use kdeconnect_nx.Json.Written.{Writes, dump_lem, parse_line}
use kdeconnect_nx.Packet.{NetworkPacket, packet, envelope, serialize, of_root, parse}

module _ (y : Yyjson) where
  open y use {Val}

  module _ (root : JsonBody y) (t b : Val) where
    of_root_plain :
        field y root (bytes "type") ≡ some t
        → field y root (bytes "body") ≡ some b
        → y.is_str t ≡ true
        → y.is_obj b ≡ true
        → field y root (bytes "payloadSize") ≡ none
        → of_root y root ≡ some (packet y (c_str (y.get_str t)) (some b))
    unfolding of_root Body.has Body.get_str Body.get_obj Body.is_num
    of_root_plain type_is body_is str obj size_is = ground arith

    of_root_payload :
        (n ti m : Val)
        → field y root (bytes "type") ≡ some t
        → field y root (bytes "body") ≡ some b
        → y.is_str t ≡ true
        → y.is_obj b ≡ true
        → field y root (bytes "payloadSize") ≡ some n
        → y.is_num n ≡ true
        → field y root (bytes "payloadTransferInfo") ≡ some ti
        → y.is_obj ti ≡ true
        → field y (some ti) (bytes "port") ≡ some m
        → y.is_num m ≡ true
        → of_root y root
          ≡ some (record {
            type = c_str (y.get_str t);
            body = some b;
            payload_size = y.get_sint n;
            payload_port = y.get_int m;
            send_payload = [];
          })
    unfolding of_root Body.has Body.get_str Body.get_obj Body.is_num Body.is_obj Body.get_i64
        Body.value_int
    of_root_payload n ti m type_is body_is str obj size_is num info_is info_obj port_is port_num =
        ground arith

  -- The bodies that `serialize` goes through, one after each setter.
  module _ (now : ℤ) (type : Text) (v : Val) (obj : y.is_obj v ≡ true) where
    abbrev with_id : JsonBody y
    with_id = upsert y (Body.empty y) (bytes "id") (y.mut_sint now)

    abbrev with_type : JsonBody y
    with_type = upsert y with_id (bytes "type") (y.mut_strcpy (c_str type))

    abbrev header : JsonBody y
    header = upsert y with_type (bytes "body") v

    with_id-IsObject : IsObject y with_id
    with_id-IsObject = upsert-IsObject y (Body.empty y) _ _ (empty-IsObject y)

    with_type-IsObject : IsObject y with_type
    with_type-IsObject = upsert-IsObject y with_id _ _ with_id-IsObject

    header-IsObject : IsObject y header
    header-IsObject = upsert-IsObject y with_type _ _ with_type-IsObject

    header_type : field y header (bytes "type") ≡ some (y.mut_strcpy (c_str type))
    unfolding eq_text bytes
    header_type =
        field-upsert_ne y with_type _ _ v with_type-IsObject refl
          (field-upsert_self y with_id _ _ with_id-IsObject)

    header_body : field y header (bytes "body") ≡ some v
    header_body = field-upsert_self y with_type _ v with_type-IsObject

    header_other :
        (k : Text)
        → eq_text (bytes "id") k ≡ false
        → eq_text (bytes "type") k ≡ false
        → eq_text (bytes "body") k ≡ false
        → field y header k ≡ none
    header_other k e f g = field-upsert_ne y with_type _ k v with_type-IsObject g (
        field-upsert_ne y with_id _ k _ with_id-IsObject f
          (field-upsert_ne y (Body.empty y) _ k _ (empty-IsObject y) e (field-empty y k)))

    of_root-header : HasNoNul type → of_root y header ≡ some (packet y type (some v))
    unfolding eq_text bytes
    of_root-header clean =
        of_root_plain header _ v header_type header_body (y.is_str-mut_strcpy _) obj
          (header_other (bytes "payloadSize") refl refl refl)
        ∙ rw (y.get_str-mut_strcpy (c_str type), c_str_lem type clean, c_str_lem type clean)

    module _ (size port : ℤ) where
      abbrev info : Val
      info = y.obj_add (y.obj_remove_str y.mut_obj (bytes "port")) (bytes "port") (y.mut_int port)

      abbrev with_size : JsonBody y
      with_size = upsert y header (bytes "payloadSize") (y.mut_sint size)

      abbrev advertised : JsonBody y
      advertised = upsert y with_size (bytes "payloadTransferInfo") info

      with_size-IsObject : IsObject y with_size
      with_size-IsObject = upsert-IsObject y header _ _ header-IsObject

      info_obj : y.is_obj info ≡ true
      unfolding upsert
      info_obj = upsert-IsObject y (Body.empty y) _ _ (empty-IsObject y)

      info_port : field y (some info) (bytes "port") ≡ some (y.mut_int port)
      unfolding upsert
      info_port = field-upsert_self y (Body.empty y) (bytes "port") _ (empty-IsObject y)

      -- The payload fields hide none of the others.
      advertised_other :
          (k : Text) {o : Option Val}
          → eq_text (bytes "payloadSize") k ≡ false
          → eq_text (bytes "payloadTransferInfo") k ≡ false
          → field y header k ≡ o
          → field y advertised k ≡ o
      advertised_other k e f h =
          field-upsert_ne y with_size _ k _ with_size-IsObject f
            (field-upsert_ne y header _ k _ header-IsObject e h)

      advertised_size : field y advertised (bytes "payloadSize") ≡ some (y.mut_sint size)
      unfolding eq_text bytes
      advertised_size =
          field-upsert_ne y with_size _ _ _ with_size-IsObject refl
            (field-upsert_self y header _ _ header-IsObject)

      of_root-advertised :
          HasNoNul type
          → IsInt64 size
          → IsInt32 port
          → of_root y advertised
            ≡ some (record {
              type = type;
              body = some v;
              payload_size = size;
              payload_port = port;
              send_payload = [];
            })
      unfolding eq_text bytes
      of_root-advertised clean size64 port32 =
          of_root_payload advertised _ v _ info _
            (advertised_other (bytes "type") refl refl header_type)
            (advertised_other (bytes "body") refl refl header_body) (y.is_str-mut_strcpy _) obj
            advertised_size (y.is_num-mut_sint size)
            (field-upsert_self y with_size _ info with_size-IsObject) info_obj info_port
            (y.is_num-mut_int port)
          ∙ rw (
            y.get_str-mut_strcpy (c_str type),
            c_str_lem type clean,
            c_str_lem type clean,
            y.get_sint-mut_sint size size64,
            y.get_int-mut_int port port32,
          )

  -- What the receiver gets of a packet: its payload is advertised if it has a port and a size.
  abbrev pub received : NetworkPacket y → NetworkPacket y
  received p =
      if leb_ℤ (pos 0) p.payload_port && ltb_ℤ (pos 0) p.payload_size
      then record p { send_payload = [] }
      else packet y p.type p.body

  pub envelope-of_root :
      (now : ℤ) (p : NetworkPacket y) (v : Val)
      → p.body ≡ some v
      → y.is_obj v ≡ true
      → HasNoNul p.type
      → IsInt64 p.payload_size
      → IsInt32 p.payload_port
      → IsObject y (envelope y now p) × (of_root y (envelope y now p) ≡ some (received p))
  unfolding envelope set_i64 set_int set_str set_obj upsert
  envelope-of_root now p v e obj clean size64 port32 =
      elim (Bool-cases (leb_ℤ (pos 0) p.payload_port && ltb_ℤ (pos 0) p.payload_size)) [
        | inl sent ↦
            rw (sent, e)
              (
                upsert-IsObject y (with_size now p.type v obj p.payload_size p.payload_port) _ _
                    (with_size-IsObject now p.type v obj p.payload_size p.payload_port),
                of_root-advertised now p.type v obj p.payload_size p.payload_port clean size64
                    port32,
              )
        | inr plain ↦
            rw (plain, e) (header-IsObject now p.type v obj, of_root-header now p.type v obj clean)
      ]

  -- A packet whose body is an object, whose type has no NUL, whose payload's size and port fit their
  -- types and whose envelope is written, comes back from its line: with the payload's size and port
  -- if a port and a positive size are set, and with no payload else. The bytes of the payload itself
  -- do not travel on the line.
  pub parse-serialize :
      (now : ℤ) (p : NetworkPacket y) (s : Text)
      → IsObject y p.body
      → HasNoNul p.type
      → IsInt64 p.payload_size
      → IsInt32 p.payload_port
      → Writes y false (envelope y now p) s
      → parse y (serialize y now p) ≡ some (received p)
  unfolding serialize parse
  parse-serialize now p s obj clean size64 port32 w = elim (Option-cases p.body) [
    | inl missing ↦ absurd (subst (IsObject y) missing obj)
    | inr (v, e) ↦
        let built = envelope-of_root now p v e (subst (IsObject y) e obj) clean size64 port32 in
        rw
          (
            dump_lem y false (envelope y now p) s w,
            parse_line y false (envelope y now p) s built.0 w,
          )
          built.1
  ]
