-- ===== src/Tls/Persistent.antt =====
-- What the next run of the program finds of the identity of this device.
use kdeconnect_nx.Prelude.{
  ◌≤◌, Text, bytes, c_str, true, false, Option, none, some, [], ◌∷◌, ◌++◌, ◌≡◌, refl, sym, ap, ◌∙◌,
  arith, ◌⊎◌, length, All, is_empty, eq_text, eq_text_refl, Bool-cases, inl, inr, insert,
  lookup-insert,
}
use kdeconnect_nx.Storage.{Disk, read_file, write_file}
use kdeconnect_nx.Tls.{
  Mbedtls, Entropy, TlsContext, holding, set_up, initialised, fresh, generate_device_id,
  strip_prefix, or_later, after_cn, before_comma, subject_of, with_subject, with_key,
  load_from_files, store_generated, certify, pk_setup, generate_self_signed, load_or_create,
}
use kdeconnect_nx.Tls.Hex.{is_hex_digit, generate_device_id-All, length-generate_device_id}

-- A name that a certificate can have, and that is printed as it is.
pub record IsName (id : Text) : Type 0 where
  pub is_hex : All (λ c. is_hex_digit c ≡ true) id
  pub is_short : length id ≤ 64

-- What is documented of mbedtls: it reads what it has written.
pub record IsLawful (m : Mbedtls) : Type 0 where
  pub written_certificate :
      (k : m.Key) (id buffer : Text)
      → IsName id
      → m.x509write_crt_pem k (bytes "CN=" ++ id) ≡ (buffer, true)
      → (is_empty (c_str buffer) ≡ false)
        × (c : m.Certificate) × (m.x509_crt_parse (c_str buffer) ≡ (c ∷ [], true))
        × (m.x509_dn_gets c ≡ bytes "CN=" ++ id)
  pub written_key :
      (k : m.Key) (buffer : Text)
      → m.pk_write_key_pem k ≡ (buffer, true)
      → (is_empty (c_str buffer) ≡ false) × (m.pk_parse_key (c_str buffer) ≡ some k)

before_comma_lem : (id : Text) → All (λ c. is_hex_digit c ≡ true) id → before_comma id ≡ id
unfolding before_comma
before_comma_lem [] h = refl
before_comma_lem (c ∷ id) h = ground (arith, before_comma_lem id h.1, h.0)

after_cn_lem : (id : Text) → after_cn (bytes "CN=" ++ id) ≡ some id
unfolding after_cn or_later strip_prefix bytes
after_cn_lem id = refl

read_file-insert :
    (d : Disk) (path text : Text)
    → is_empty text ≡ false
    → read_file (record d { files = insert path text d.files }) path ≡ text
unfolding read_file
read_file-insert d path text h =
    rw (lookup-insert path path text d.files, eq_text_refl path, h) refl

read_file-insert_ne :
    (d : Disk) (path other text : Text)
    → eq_text other path ≡ false
    → read_file (record d { files = insert other text d.files }) path ≡ read_file d path
unfolding read_file
read_file-insert_ne d path other text h = rw (lookup-insert other path text d.files, h) refl

module _ (m : Mbedtls) where
  open m use {Certificate, Key}

  -- What a run has that reads a certificate and its key.
  abbrev loaded : Certificate → Key → Text → Text → TlsContext m
  loaded c k pem id = record { cert = c ∷ []; key = holding k; cert_pem = pem; device_id = id }

  load_from_files_lem :
      (cert_path key_path : Text) (d : Disk) (c : Certificate) (k : Key) (pem key_pem id : Text)
      → read_file d cert_path ≡ pem
      → read_file d key_path ≡ key_pem
      → is_empty pem ≡ false
      → is_empty key_pem ≡ false
      → m.x509_crt_parse pem ≡ (c ∷ [], true)
      → m.x509_dn_gets c ≡ bytes "CN=" ++ id
      → m.pk_parse_key key_pem ≡ some k
      → All (λ c. is_hex_digit c ≡ true) id
      → load_from_files m cert_path key_path d (fresh m) ≡ (loaded c k pem id, true)
  unfolding load_from_files with_key with_subject subject_of
  load_from_files_lem cert_path key_path d c k pem key_pem id rc rk nc nk pc dn pk hex =
      rw (rc, rk, nc, nk, pc, pk, dn, after_cn_lem id, before_comma_lem id hex) refl

  -- A load that fails leaves no key and no id.
  load_fails :
      (cert_path key_path : Text) (d : Disk)
      → (load_from_files m cert_path key_path d (fresh m)).1 ≡ false
      → ((load_from_files m cert_path key_path d (fresh m)).0.key ≡ initialised)
        × ((load_from_files m cert_path key_path d (fresh m)).0.device_id ≡ [])
  unfolding load_from_files with_key with_subject
  load_fails cert_path key_path d h = ground arith

  -- A certificate that is stored is on the disk, and its key too.
  pub store_generated_lem :
      (cert_path key_path : Text) (k : Key) (d : Disk) (c : TlsContext m)
      → (store_generated m cert_path key_path k d c).2 ≡ true
      → ((m.pk_write_key_pem k).1 ≡ true)
        × ((store_generated m cert_path key_path k d c).1 ≡ record d {
          files =
              insert key_path
                (c_str (m.pk_write_key_pem k).0)
                (insert cert_path c.cert_pem d.files);
        })
        × ((store_generated m cert_path key_path k d c).0
            ≡ record c { cert = c.cert ++ (m.x509_crt_parse c.cert_pem).0 })
  unfolding store_generated write_file
  store_generated_lem cert_path key_path k d c h = ground arith

  -- Two contexts with the same key, chain of certificates, text of the certificate and id.
  pub record SameIdentity (a b : TlsContext m) : Type 0 where
    pub same_key : a.key ≡ b.key
    pub same_cert : a.cert ≡ b.cert
    pub same_pem : a.cert_pem ≡ b.cert_pem
    pub same_id : a.device_id ≡ b.device_id

  module _ (cert_path key_path : Text) where
    -- Where there is no certificate, a load leaves none in the context.
    no_chain :
        (d : Disk)
        → (is_empty (read_file d cert_path) ≡ true)
          ⊎ ((load_from_files m cert_path key_path d (fresh m)).1 ≡ true)
        → (load_from_files m cert_path key_path d (fresh m)).1 ≡ false
        → (load_from_files m cert_path key_path d (fresh m)).0.cert ≡ []
    unfolding load_from_files
    no_chain d (inl empty) missing = rw empty refl
    no_chain d (inr found) missing = cc

  module _ (lawful : IsLawful m) (cert_path key_path : Text)
      (apart : eq_text key_path cert_path ≡ false) where
    stored_loads :
        (k : Key) (d : Disk) (c : TlsContext m) (id buffer : Text)
        → IsName id
        → m.x509write_crt_pem k (bytes "CN=" ++ id) ≡ (buffer, true)
        → c.key ≡ holding k
        → c.cert_pem ≡ c_str buffer
        → c.device_id ≡ id
        → c.cert ≡ []
        → let r = store_generated m cert_path key_path k d c in
          let l = load_from_files m cert_path key_path r.1 (fresh m) in
          r.2 ≡ true → (l.1 ≡ true) × SameIdentity l.0 r.0
    stored_loads k d c id buffer name written has_key has_pem has_id bare h =
        let (fine, disk, context) = store_generated_lem cert_path key_path k d c h in
        let (pem_ne, crt, parsed, dn) = lawful.written_certificate k id buffer name written in
        let key_text = c_str (m.pk_write_key_pem k).0 in
        let (key_ne, key_parsed) =
          lawful.written_key k (m.pk_write_key_pem k).0
            (ap (λ b. ((m.pk_write_key_pem k).0, b)) fine) in
        let d1 : Disk = record d { files = insert cert_path (c_str buffer) d.files } in
        let d2 : Disk = record d1 { files = insert key_path key_text d1.files } in
        let read_back =
          load_from_files_lem cert_path key_path d2 crt k (c_str buffer) key_text id
            (read_file-insert_ne d1 cert_path key_path key_text apart
              ∙ read_file-insert d cert_path (c_str buffer) pem_ne)
            (read_file-insert d1 key_path key_text key_ne) pem_ne key_ne parsed dn key_parsed
            name.is_hex in
        rw (disk, context, has_pem, bare, parsed, read_back)
          (
            refl,
            record {
              same_key = sym has_key;
              same_cert = refl;
              same_pem = refl;
              same_id = sym has_id;
            },
          )

    certified_loads :
        (new_key : Option Key) (d : Disk) (c : TlsContext m)
        → IsName c.device_id
        → c.cert ≡ []
        → let r = certify m cert_path key_path new_key d c in
          let l = load_from_files m cert_path key_path r.1 (fresh m) in
          r.2 ≡ true → (l.1 ≡ true) × SameIdentity l.0 r.0
    unfolding certify
    certified_loads none d c name bare h = cc
    certified_loads (some k) d c name bare h =
        let subject = bytes "CN=" ++ c.device_id in
        let pem = m.x509write_crt_pem k subject in
        elim (Bool-cases (m.x509write_crt_set_name subject)) [
          | inr refused ↦ cc (rw refused at h)
          | inl named ↦ elim (Bool-cases pem.1) [
            | inr failed ↦ cc (rw (named, failed) at h)
            | inl written ↦
                rw (named, written)
                  (stored_loads k d (record c { key = holding k; cert_pem = c_str pem.0 })
                    c.device_id pem.0 name (ap (λ b. (pem.0, b)) written) refl refl refl bare
                    (rw (named, written) at h))
          ]
        ]

    generated_loads :
        (e : Entropy m) (d : Disk) (c : TlsContext m)
        → length e.id_bytes ≡ 16
        → c.key ≡ initialised
        → c.device_id ≡ []
        → c.cert ≡ []
        → let r = generate_self_signed m e cert_path key_path d c in
          let l = load_from_files m cert_path key_path r.1 (fresh m) in
          r.2 ≡ true → (l.1 ≡ true) × SameIdentity l.0 r.0
    unfolding generate_self_signed pk_setup
    generated_loads e d c sixteen no_key no_id bare h =
        rw (no_id, no_key)
          (certified_loads e.new_key d
            (record c { device_id = generate_device_id e.id_bytes; key = set_up })
            (record {
              is_hex = generate_device_id-All e.id_bytes;
              is_short = omega (arith, length-generate_device_id e.id_bytes, sixteen);
            })
            bare (rw (no_id, no_key) at h))

    -- A run that reads its identity, or that generates one where there is no certificate, or an empty
    -- file, fixes it: every later run reads the same key, chain of certificates and id, whatever random
    -- bytes it gets, and writes nothing. mbedtls is taken to read what it has written, the two paths to
    -- differ, and a new id to have sixteen random bytes.
    pub load_or_create-again :
        (e later : Entropy m) (d : Disk)
        → length e.id_bytes ≡ 16
        → (is_empty (read_file d cert_path) ≡ true)
          ⊎ ((load_from_files m cert_path key_path d (fresh m)).1 ≡ true)
        → (load_or_create m e cert_path key_path d (fresh m)).2 ≡ true
        → let r = load_or_create m e cert_path key_path d (fresh m) in
          let l = load_or_create m later cert_path key_path r.1 (fresh m) in
          (l.2 ≡ true) × SameIdentity l.0 r.0 × (l.1 ≡ r.1)
    unfolding load_or_create
    load_or_create-again e later d sixteen clean h =
        let first = load_from_files m cert_path key_path d (fresh m) in
        elim (Bool-cases first.1) [
          | inl found ↦
              rw (found, found)
                (
                  refl,
                  record { same_key = refl; same_cert = refl; same_pem = refl; same_id = refl },
                  refl,
                )
          | inr missing ↦
              let (no_key, no_id) = load_fails cert_path key_path d missing in
              let (again, same) =
                generated_loads e d first.0 sixteen no_key no_id
                  (no_chain cert_path key_path d clean missing) (rw missing at h) in
              rw (missing, again) (refl, same, refl)
        ]
