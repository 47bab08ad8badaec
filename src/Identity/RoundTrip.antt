-- ===== src/Identity/RoundTrip.antt =====
-- What a device reads from the identity packet of another.
use kdeconnect_nx.Prelude.{
  Text, bytes, false, Option, none, some, List, [], ◌∷◌, map, ◌≡◌, refl, ◌∙◌, eq_text, c_str,
  HasNoNul, All,
}
use kdeconnect_nx.Prelude.Int.{ℤ, IsInt32}
use kdeconnect_nx.Json.Yyjson.{Yyjson}
use kdeconnect_nx.Json.Body
use kdeconnect_nx.Json.Body.{JsonBody, field, upsert}
use kdeconnect_nx.Json.Setters.{set_int, set_str, set_str_array}
use kdeconnect_nx.Json.Fields.{
  IsObject, empty-IsObject, upsert-IsObject, field-upsert_ne, has-field,
}
use kdeconnect_nx.Json.Upserts.{
  lookup_last, upserts-IsObject, field-upserts, value_int-mut_int, value_str-mut_strcpy,
  get_str_array-mut_arr,
}
use kdeconnect_nx.Identity.{
  DeviceInfo, info_from_identity, set_if, identity_body, make_identity_packet,
}

-- The strings that a C string can carry, and a version that fits an `int`.
pub record IsPlain (info : DeviceInfo) : Type 0 where
  pub id_plain : HasNoNul info.id
  pub name_plain : HasNoNul info.name
  pub type_plain : HasNoNul info.type
  pub version_fits : IsInt32 info.protocol_version
  pub incoming_plain : All HasNoNul info.incoming_capabilities
  pub outgoing_plain : All HasNoNul info.outgoing_capabilities

module _ (y : Yyjson) where
  open y use {Val}

  abbrev arr_of : List Text → Val
  arr_of ss = y.mut_arr (map (λ s. y.mut_strcpy (c_str s)) ss)

  abbrev identity_fields : DeviceInfo → List (Text × Val)
  identity_fields info =
      (bytes "deviceId", y.mut_strcpy (c_str info.id))
      ∷ (bytes "deviceName", y.mut_strcpy (c_str info.name))
      ∷ (bytes "deviceType", y.mut_strcpy (c_str info.type))
      ∷ (bytes "protocolVersion", y.mut_int info.protocol_version)
      ∷ (bytes "incomingCapabilities", arr_of info.incoming_capabilities)
      ∷ (bytes "outgoingCapabilities", arr_of info.outgoing_capabilities)
      ∷ []

  pub identity_body-IsObject : (info : DeviceInfo) → IsObject y (identity_body y info)
  unfolding identity_body set_int set_str set_str_array
  identity_body-IsObject info =
      upserts-IsObject y (identity_fields info) (Body.empty y) (empty-IsObject y)

  pub field-identity_body :
      (info : DeviceInfo) (k : Text) {v : Val}
      → lookup_last k (identity_fields info) ≡ some v
      → field y (identity_body y info) k ≡ some v
  unfolding identity_body set_int set_str set_str_array
  field-identity_body info k e =
      field-upserts y (identity_fields info) (Body.empty y) k (empty-IsObject y) ∙ rw e

  -- An optional field leaves the others as they are.
  set_if-IsObject :
      {A : Type 0} (setter : Text → A → JsonBody y → JsonBody y) (to_val : A → Val)
      → ((j : Text) (a : A) (b : JsonBody y) → setter j a b ≡ upsert y b j (to_val a))
      → (j : Text) (o : Option A) (b : JsonBody y) → IsObject y b
      → IsObject y (set_if y setter j o b)
  unfolding set_if
  set_if-IsObject setter to_val is j none b h = h
  set_if-IsObject setter to_val is j (some a) b h =
      rw (is j a b) (upsert-IsObject y b j (to_val a) h)

  field-set_if :
      {A : Type 0} (setter : Text → A → JsonBody y → JsonBody y) (to_val : A → Val)
      → ((j : Text) (a : A) (b : JsonBody y) → setter j a b ≡ upsert y b j (to_val a))
      → (j k : Text) (o : Option A) (b : JsonBody y) {r : Option Val} → IsObject y b
      → eq_text j k ≡ false
      → field y b k ≡ r
      → field y (set_if y setter j o b) k ≡ r
  unfolding set_if
  field-set_if setter to_val is j k none b h ne e = e
  field-set_if setter to_val is j k (some a) b h ne e =
      rw (is j a b) (field-upsert_ne y b j k (to_val a) h ne e)

  set_int-upsert :
      (j : Text) (a : ℤ) (b : JsonBody y) → set_int y j a b ≡ upsert y b j (y.mut_int a)
  unfolding set_int
  set_int-upsert j a b = refl

  set_str-upsert :
      (j : Text) (a : Text) (b : JsonBody y)
      → set_str y j a b ≡ upsert y b j (y.mut_strcpy (c_str a))
  unfolding set_str
  set_str-upsert j a b = refl

  module _ (info : DeviceInfo) (id : Option Text) (protocol port : Option ℤ) where
    -- The optional fields have keys of their own.
    field-identity :
        (k : Text) {v : Val}
        → eq_text (bytes "targetDeviceId") k ≡ false
        → eq_text (bytes "targetProtocolVersion") k ≡ false
        → eq_text (bytes "tcpPort") k ≡ false
        → lookup_last k (identity_fields info) ≡ some v
        → field y (make_identity_packet y info id protocol port).body k ≡ some v
    unfolding make_identity_packet
    field-identity k ne_id ne_protocol ne_port e =
        field-set_if (set_int y) y.mut_int set_int-upsert _ k port _
          (set_if-IsObject (set_int y) y.mut_int set_int-upsert _ protocol _ (
            set_if-IsObject (set_str y) (λ s. y.mut_strcpy (c_str s)) set_str-upsert _ id _
              (identity_body-IsObject info)))
          ne_port
          (field-set_if (set_int y) y.mut_int set_int-upsert _ k protocol _
            (set_if-IsObject (set_str y) (λ s. y.mut_strcpy (c_str s)) set_str-upsert _ id _
              (identity_body-IsObject info))
            ne_protocol
            (field-set_if (set_str y) (λ s. y.mut_strcpy (c_str s)) set_str-upsert _ k id _
              (identity_body-IsObject info) ne_id (field-identity_body info k e)))

    abbrev made : JsonBody y
    made = (make_identity_packet y info id protocol port).body

    -- The identity packet of a device whose strings have no NUL and whose protocol version fits an
    -- `int`, for whatever target and port, tells the reader all of the device's information.
    pub info_from_identity-make_identity_packet :
        IsPlain info → info_from_identity y (make_identity_packet y info id protocol port) ≡ info
    unfolding info_from_identity eq_text bytes lookup_last
    info_from_identity-make_identity_packet p =
        let incoming = field-identity (bytes "incomingCapabilities") refl refl refl refl in
        let outgoing = field-identity (bytes "outgoingCapabilities") refl refl refl refl in
        rw (
          value_str-mut_strcpy y made (bytes "deviceId") info.id [] p.id_plain
              (field-identity (bytes "deviceId") refl refl refl refl),
          value_str-mut_strcpy y made (bytes "deviceName") info.name (bytes "unknown") p.name_plain
              (field-identity (bytes "deviceName") refl refl refl refl),
          value_str-mut_strcpy y made (bytes "deviceType") info.type (bytes "desktop") p.type_plain
              (field-identity (bytes "deviceType") refl refl refl refl),
          value_int-mut_int y made (bytes "protocolVersion") info.protocol_version _ p.version_fits
              (field-identity (bytes "protocolVersion") refl refl refl refl),
          has-field y made (bytes "incomingCapabilities") incoming,
          has-field y made (bytes "outgoingCapabilities") outgoing,
          get_str_array-mut_arr y made (bytes "incomingCapabilities") info.incoming_capabilities
              p.incoming_plain incoming,
          get_str_array-mut_arr y made (bytes "outgoingCapabilities") info.outgoing_capabilities
              p.outgoing_plain outgoing,
        )
