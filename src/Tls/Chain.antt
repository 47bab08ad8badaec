-- ===== src/Tls/Chain.antt =====
-- Which certificate a context shows after one was generated. `mbedtls_ssl_conf_own_cert` is given the
-- chain, whose head is the certificate that the sessions show, and the key.
use kdeconnect_nx.Prelude.{
  Text, bytes, c_str, true, false, Option, none, some, List, ◌∷◌, ◌++◌, ◌≡◌, refl, is_empty,
  Bool-cases, inl, inr,
}
use kdeconnect_nx.Storage.{Disk, read_file}
use kdeconnect_nx.Tls.{
  Mbedtls, Entropy, TlsContext, holding, fresh, with_key, load_from_files, certify, pk_setup,
  generate_self_signed, load_or_create,
}
use kdeconnect_nx.Tls.Persistent.{store_generated_lem}

module _ (m : Mbedtls) (cert_path key_path : Text) where
  open m use {Certificate, Key}

  -- What is generated goes behind what was there, and its key takes the key's place.
  certify-cert :
      (new_key : Option Key) (d : Disk) (c : TlsContext m)
      → let r = certify m cert_path key_path new_key d c in
        r.2 ≡ true
        → (k : Key) × (new_key ≡ some k)
          × (r.0.key ≡ holding k)
          × (r.0.cert ≡ c.cert ++ (m.x509_crt_parse r.0.cert_pem).0)
  unfolding certify
  certify-cert none d c h = cc
  certify-cert (some k) d c h =
      let subject = bytes "CN=" ++ c.device_id in
      let pem = m.x509write_crt_pem k subject in
      elim (Bool-cases (m.x509write_crt_set_name subject)) [
        | inr refused ↦ cc (rw refused at h)
        | inl named ↦ elim (Bool-cases pem.1) [
          | inr failed ↦ cc (rw (named, failed) at h)
          | inl written ↦
              let c1 : TlsContext m = record c { key = holding k; cert_pem = c_str pem.0 } in
              let stored =
                store_generated_lem m cert_path key_path k d c1 (rw (named, written) at h) in
              rw (named, written, stored.2) (k, refl, refl, refl)
        ]
      ]

  -- Where the certificate on the disk can be read and the key beside it cannot, a new pair is
  -- generated; if that succeeds, the program starts with the new key, but the old certificate is still
  -- the head of the chain, the new one stands behind it.
  pub load_or_create-old_head :
      (e : Entropy m) (d : Disk) (old : Certificate) (rest : List Certificate)
      → is_empty (read_file d cert_path) ≡ false
      → is_empty (read_file d key_path) ≡ false
      → m.x509_crt_parse (read_file d cert_path) ≡ (old ∷ rest, true)
      → m.pk_parse_key (read_file d key_path) ≡ none
      → (load_or_create m e cert_path key_path d (fresh m)).2 ≡ true
      → let r = load_or_create m e cert_path key_path d (fresh m) in
        (k : Key) × (e.new_key ≡ some k)
        × (r.0.key ≡ holding k)
        × (r.0.cert ≡ old ∷ (rest ++ (m.x509_crt_parse r.0.cert_pem).0))
  unfolding load_or_create generate_self_signed pk_setup load_from_files with_key
  load_or_create-old_head e d old rest nc nk pc pk h =
      rw (nc, nk, pc, pk) (certify-cert e.new_key d _ (rw (nc, nk, pc, pk) at h))
