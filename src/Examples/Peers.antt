-- ===== src/Examples/Peers.antt =====
-- The identity of this device and the finding of others at concrete inputs.
use kdeconnect_nx.Prelude.{
  ℕ, suc, ◌-◌, Text, bytes, c_str, c_str_lem, HasNoNul, Bool, true, false, Option, none, some, List,
  [], ◌∷◌, ◌++◌, ◌≡◌, refl, sym, ap, All, arith, eq_text, lookup, inl, is_empty,
}
use kdeconnect_nx.Storage.{Disk, read_file, write_file}
use kdeconnect_nx.Tls.{
  Mbedtls, Entropy, TlsContext, holding, fresh, hex_digits, generate_device_id, with_key,
  load_from_files, store_generated, certify, pk_setup, generate_self_signed, load_or_create,
}
use kdeconnect_nx.Tls.Hex.{is_hex_digit}
use kdeconnect_nx.Tls.Persistent.{IsLawful, SameIdentity, load_or_create-again}
use kdeconnect_nx.Tls.Chain.{load_or_create-old_head}
use kdeconnect_nx.Examples.Devices.{blank}

-- A certificate is its subject, and is written as that; a key is a number, written as one byte.
parse_crt : Text → List Text × Bool
parse_crt [] = ([], false)
parse_crt (c ∷ t) = ((c ∷ t) ∷ [], true)

parse_key : Text → Option ℕ
parse_key [] = none
parse_key (c ∷ []) = some (c - 1)
parse_key (c ∷ d ∷ t) = none

abbrev plain_tls : Mbedtls
plain_tls = record {
  Certificate = Text;
  Key = ℕ;
  x509_crt_parse = parse_crt;
  pk_parse_key = parse_key;
  x509_dn_gets = λ c. c;
  x509write_crt_set_name = λ name. true;
  x509write_crt_pem = λ k subject. (subject, true);
  pk_write_key_pem = λ k. (suc k ∷ [], true);
}

hex_HasNoNul : (id : Text) → All (λ c. is_hex_digit c ≡ true) id → HasNoNul id
hex_HasNoNul [] h = tt
hex_HasNoNul (c ∷ id) h = (ground (arith, h.0), hex_HasNoNul id h.1)

subject_HasNoNul : (id : Text) → All (λ c. is_hex_digit c ≡ true) id → HasNoNul (bytes "CN=" ++ id)
unfolding bytes
subject_HasNoNul id h = (omega arith, (omega arith, (omega arith, hex_HasNoNul id h)))

plain_tls-IsLawful : IsLawful plain_tls
unfolding parse_crt parse_key c_str bytes
plain_tls-IsLawful = record {
  written_certificate = λ k id buffer name h.
      let written : buffer ≡ bytes "CN=" ++ id = sym (ap (λ p. p.0) h) in
      let whole = c_str_lem (bytes "CN=" ++ id) (subject_HasNoNul id name.is_hex) in
      rw (written, whole) (refl, bytes "CN=" ++ id, refl, refl);
  written_key = λ k buffer h.
      let written : buffer ≡ suc k ∷ [] = sym (ap (λ p. p.0) h) in
      rw (written, c_str_lem (suc k ∷ []) (omega arith, tt)) (refl, ap some (omega arith));
}

abbrev cert_file : Text
cert_file = bytes "/c"

abbrev key_file : Text
key_file = bytes "/k"

abbrev first_run : Entropy plain_tls
first_run = record {
  id_bytes =
      0 ∷ 17 ∷ 34 ∷ 51 ∷ 68 ∷ 85 ∷ 102 ∷ 119 ∷ 136 ∷ 153 ∷ 170 ∷ 187 ∷ 204 ∷ 221 ∷ 238 ∷ 255 ∷ [];
  new_key = some 7;
}

abbrev next_run : Entropy plain_tls
next_run = record { id_bytes = []; new_key = none }

abbrev installed : TlsContext plain_tls × Disk × Bool
installed = load_or_create plain_tls first_run cert_file key_file blank (fresh plain_tls)

apart : eq_text key_file cert_file ≡ false
unfolding eq_text bytes
apart = refl

installed_well : installed.2 ≡ true
unfolding load_or_create generate_self_signed pk_setup load_from_files certify store_generated
    parse_crt read_file write_file lookup bytes generate_device_id hex_digits c_str
installed_well = refl

abbrev restarted : TlsContext plain_tls × Disk × Bool
restarted = load_or_create plain_tls next_run cert_file key_file installed.1 (fresh plain_tls)

no_certificate : is_empty (read_file blank cert_file) ≡ true
unfolding read_file lookup
no_certificate = refl

load_or_create-again_example :
    (restarted.2 ≡ true)
    × SameIdentity plain_tls restarted.0 installed.0
    × (restarted.1 ≡ installed.1)
load_or_create-again_example =
    load_or_create-again plain_tls plain_tls-IsLawful cert_file key_file apart first_run next_run
      blank refl (inl no_certificate) installed_well

-- The disk has a certificate, and a key that is not one.
abbrev damaged : Disk
damaged = record blank { files = (cert_file, bytes "CN=0a") ∷ ((key_file, bytes "??") ∷ []) }

abbrev renewed : TlsContext plain_tls × Disk × Bool
renewed = load_or_create plain_tls first_run cert_file key_file damaged (fresh plain_tls)

renewed_well : renewed.2 ≡ true
unfolding load_or_create generate_self_signed pk_setup load_from_files certify store_generated
    parse_crt parse_key with_key read_file write_file lookup bytes generate_device_id hex_digits
    c_str eq_text
renewed_well = refl

load_or_create-old_head_example :
    (k : ℕ) × (some 7 ≡ some k)
    × (renewed.0.key ≡ holding k)
    × (renewed.0.cert ≡ bytes "CN=0a" ∷ (parse_crt renewed.0.cert_pem).0)
unfolding read_file lookup eq_text bytes parse_crt parse_key
load_or_create-old_head_example =
    load_or_create-old_head plain_tls cert_file key_file first_run damaged (bytes "CN=0a") [] refl
      refl refl refl renewed_well
