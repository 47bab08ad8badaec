-- ===== src/Tls.antt =====
-- sysmodule/src/net/tls.{h,cpp}: the identity of this device, which is a certificate with its key. The
-- library mbedtls is a record of the calls that are made of it; its contexts hold a chain of
-- certificates and a key.
pub mod Hex
pub mod Persistent
pub mod Chain
pub mod Sessions
use kdeconnect_nx.Prelude.{
  ℕ, ◌/◌, ◌%◌, Text, bytes, c_str, Bool, true, false, not, ◌||◌, Option, none, some, List, [], ◌∷◌,
  ◌++◌, ◌==◌, if◌then◌else◌, get_or, is_empty,
}
use kdeconnect_nx.Storage.{Disk, read_file, write_file}

-- The two loops over the digits of bytes, with the table of digits.
unfoldable pub hex_digits : Text → List ℕ → Text
hex_digits hex [] = []
hex_digits hex (b ∷ bs) = get_or hex (b / 16 % 16) 0 ∷ (get_or hex (b % 16) 0 ∷ hex_digits hex bs)

-- `generate_device_id`, of the random bytes.
unfoldable pub generate_device_id : List ℕ → Text
generate_device_id = hex_digits (bytes "0123456789abcdef")

-- `sha256_hex_upper`, of the digest that `mbedtls_sha256` computes.
unfoldable pub sha256_hex_upper : (Text → List ℕ) → Text → Text
sha256_hex_upper sha256 input = hex_digits (bytes "0123456789ABCDEF") (sha256 input)

unfoldable pub strip_prefix : Text → Text → Option Text
strip_prefix [] s = some s
strip_prefix (p ∷ ps) [] = none
strip_prefix (p ∷ ps) (c ∷ cs) = if p == c then strip_prefix ps cs else none

unfoldable pub or_later : Option Text → Option Text → Option Text
or_later none later = later
or_later (some rest) later = some rest

-- What follows the first `CN=` of a subject.
unfoldable pub after_cn : Text → Option Text
unfolding or_later
after_cn [] = none
after_cn (c ∷ cs) = or_later (strip_prefix (bytes "CN=") (c ∷ cs)) (after_cn cs)

unfoldable pub before_comma : Text → Text
before_comma [] = []
before_comma (c ∷ cs) = if c == b',' then [] else c ∷ before_comma cs

-- The calls of mbedtls. A write gives what its buffer then holds, and whether it succeeded; so does a
-- parse with the certificates that it appends.
pub record Mbedtls : Type 1 where
  pub Certificate : Type 0
  pub Key : Type 0
  pub x509_crt_parse : Text → List Certificate × Bool
  pub pk_parse_key : Text → Option Key
  pub x509_dn_gets : Certificate → Text
  pub x509write_crt_set_name : Text → Bool
  pub x509write_crt_pem : Key → Text → Text × Bool
  pub pk_write_key_pem : Key → Text × Bool

-- A context of a key: initialised, set up, or holding a key.
pub data PkContext (K : Type 0) : Type 0 where
  initialised : PkContext K
  set_up : PkContext K
  holding : K → PkContext K

-- What the generator of random numbers gives to one run: the bytes of an id, and a key pair.
pub record Entropy (m : Mbedtls) : Type 0 where
  pub id_bytes : List ℕ
  pub new_key : Option m.Key

pub record TlsContext (m : Mbedtls) : Type 0 where
  pub cert : List m.Certificate
  pub key : PkContext m.Key
  pub cert_pem : Text
  pub device_id : Text

module _ (m : Mbedtls) where
  open m use {Certificate, Key}

  -- `TlsContext::TlsContext`
  abbrev pub fresh : TlsContext m
  fresh = record { cert = []; key = initialised; cert_pem = []; device_id = [] }

  -- `mbedtls_x509_dn_gets` of the subject of the chain's head.
  unfoldable pub subject_of : List Certificate → Text
  subject_of [] = []
  subject_of (c ∷ cs) = m.x509_dn_gets c

  -- `mbedtls_x509_crt_parse` into the context's chain.
  abbrev pub parse_into : Text → TlsContext m → TlsContext m
  parse_into pem c = record c { cert = c.cert ++ (m.x509_crt_parse pem).0 }

  unfoldable pub with_subject : Text → Option Text → TlsContext m → TlsContext m × Bool
  with_subject cert_pem none c = (record c { cert = []; key = initialised }, false)
  with_subject cert_pem (some id) c =
      (record c { device_id = before_comma id; cert_pem = cert_pem }, true)

  unfoldable pub with_key : Text → Option Key → TlsContext m → TlsContext m × Bool
  unfolding with_subject subject_of
  with_key cert_pem none c = (c, false)
  with_key cert_pem (some k) c =
      with_subject cert_pem (after_cn (subject_of c.cert)) (record c { key = holding k })

  unfoldable pub load_from_files : Text → Text → Disk → TlsContext m → TlsContext m × Bool
  unfolding with_key
  load_from_files cert_path key_path d c =
      let cert_pem = read_file d cert_path in
      let key_pem = read_file d key_path in
      if is_empty cert_pem || is_empty key_pem
      then (c, false)
      else if not (m.x509_crt_parse cert_pem).1
      then (parse_into cert_pem c, false)
      else with_key cert_pem (m.pk_parse_key key_pem) (parse_into cert_pem c)

  -- From the certificate on: it is written to the disk, then the key, and both are in use.
  unfoldable pub store_generated :
      Text → Text → Key → Disk → TlsContext m → TlsContext m × Disk × Bool
  store_generated cert_path key_path k d c =
      let (d1, cert_written) = write_file d cert_path c.cert_pem in
      let key_pem = m.pk_write_key_pem k in
      let (d2, key_written) = write_file d1 key_path (c_str key_pem.0) in
      if not cert_written
      then (c, d1, false)
      else if not key_pem.1
      then (c, d1, false)
      else if not key_written
      then (c, d2, false)
      else (parse_into c.cert_pem c, d2, (m.x509_crt_parse c.cert_pem).1)

  unfoldable pub certify :
      Text → Text → Option Key → Disk → TlsContext m → TlsContext m × Disk × Bool
  unfolding store_generated
  certify cert_path key_path none d c = (c, d, false)
  certify cert_path key_path (some k) d c =
      let c1 = record c { key = holding k } in
      let pem = m.x509write_crt_pem k (bytes "CN=" ++ c.device_id) in
      if not (m.x509write_crt_set_name (bytes "CN=" ++ c.device_id))
      then (c1, d, false)
      else if not pem.1
      then (record c1 { cert_pem = pem.0 }, d, false)
      else store_generated cert_path key_path k d (record c1 { cert_pem = c_str pem.0 })

  -- `mbedtls_pk_setup` fails on a context that is set up.
  unfoldable pub pk_setup : PkContext Key → Bool
  pk_setup initialised = true
  pk_setup set_up = false
  pk_setup (holding k) = false

  unfoldable pub generate_self_signed :
      Entropy m → Text → Text → Disk → TlsContext m → TlsContext m × Disk × Bool
  unfolding certify pk_setup
  generate_self_signed e cert_path key_path d c =
      let id = if is_empty c.device_id then generate_device_id e.id_bytes else c.device_id in
      let c1 = record c { device_id = id } in
      if not (pk_setup c.key)
      then (c1, d, false)
      else certify cert_path key_path e.new_key d (record c1 { key = set_up })

  unfoldable pub load_or_create :
      Entropy m → Text → Text → Disk → TlsContext m → TlsContext m × Disk × Bool
  unfolding generate_self_signed load_from_files
  load_or_create e cert_path key_path d c =
      let (c1, loaded) = load_from_files cert_path key_path d c in
      if loaded then (c1, d, true) else generate_self_signed e cert_path key_path d c1
