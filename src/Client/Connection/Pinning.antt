-- ===== src/Client/Connection/Pinning.antt =====
-- Whose connections are let in, and as what.
use kdeconnect_nx.Prelude.{
  Text, Bool, true, false, Option, none, some, [], ◌≡◌, ◌≢◌, arith, eq_text_iff,
}
use kdeconnect_nx.Prelude.Int.{eq_ℤ_iff}
use kdeconnect_nx.Json.Yyjson.{Yyjson}
use kdeconnect_nx.Identity.{DeviceInfo}
use kdeconnect_nx.Storage.{PairedDeviceInfo, load_paired_device}
use kdeconnect_nx.Client.State.{PluginHost, Client}
use kdeconnect_nx.Client.Connection.{Handshake, vetted, identity_in, matches}

module _ (y : Yyjson) (host : PluginHost y) (sha256_hex_upper : Text → Text) (base : Text) where
  open host use {Plugin}

  matches_cases :
      (identity : DeviceInfo) (o : Option DeviceInfo) (secure : DeviceInfo)
      → matches y host sha256_hex_upper base identity o ≡ some secure
      → (secure.id ≡ identity.id) × (secure.protocol_version ≡ identity.protocol_version)
  unfolding matches
  matches_cases identity none secure e = absurd (cc)
  matches_cases identity (some s) secure e =
      ground
        (arith, eq_text_iff s.id identity.id, eq_ℤ_iff s.protocol_version identity.protocol_version)

  -- A connection that is let in has an id that is neither empty nor this device's own, has finished
  -- its handshake, and named itself under TLS by the id and the protocol version it had named before.
  pub vetted_identity :
      (side : Bool) (identity secure : DeviceInfo) (t : Handshake) (c : Client Plugin)
      → vetted y host sha256_hex_upper base side identity t c ≡ some secure
      → (identity.id ≢ [])
        × (identity.id ≢ c.local_device.id)
        × (t.handshake_done ≡ true)
        × (secure.id ≡ identity.id)
        × (secure.protocol_version ≡ identity.protocol_version)
  unfolding vetted
  vetted_identity side identity secure t c e = ground (
    arith,
    eq_text_iff identity.id c.local_device.id,
    matches_cases identity (identity_in y host sha256_hex_upper base t.line) secure,
  )

  -- On the side that accepted the connection, a device that is stored with a certificate is let in
  -- only with that certificate.
  pub vetted_pinned :
      (identity secure : DeviceInfo) (t : Handshake) (c : Client Plugin) (stored : PairedDeviceInfo)
      → vetted y host sha256_hex_upper base true identity t c ≡ some secure
      → load_paired_device y base c.disk identity.id ≡ some stored
      → stored.certificate_pem ≢ []
      → t.peer_cert_pem ≡ stored.certificate_pem
  unfolding vetted
  vetted_pinned identity secure t c stored e known pem =
      ground (arith, eq_text_iff t.peer_cert_pem stored.certificate_pem)

  -- On the side that opened the connection no certificate is compared: whether a device is let in does
  -- not depend on the certificate that it presents, nor on there being one, also where another
  -- certificate is stored for it.
  pub vetted_unpinned :
      (identity : DeviceInfo) (t : Handshake) (c : Client Plugin) (pem : Text)
      → vetted y host sha256_hex_upper base false identity (record t { peer_cert_pem = pem }) c
        ≡ vetted y host sha256_hex_upper base false identity t c
  unfolding vetted
  vetted_unpinned identity t c pem = ground arith
