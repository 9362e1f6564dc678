-- ===== src/ClientDescriptor/Leases.antt =====
-- Which clients of the SDK are open after any calls of the descriptor of clients.
use cnf_nsm.Common.{
  ◌≡◌, refl, ◌∙◌, Bool, true, false, not, ◌&&◌, ◌||◌, List, [], ◌∷◌, Option, none, some, Bytes,
  arith, str_eq, str_eq_iff, if◌then◌else◌, inl, inr, Option-cases,
}
use cnf_nsm.Proto.{NetworkServiceClient}
use cnf_nsm.Errors.{Error, Result, ok, err, Result-cases}
use cnf_nsm.External.{Os, SdkNames, NsConfiguration, InterfaceConfig}
use cnf_nsm.ClientDescriptor.{
  ClientSdk, NsmClientMetadata, NsmClientDescriptor, new_nsm_client_descriptor, start_interface,
  with_connection, with_client, build_interface_config, client_configuration, create,
  end_connection, delete_client,
}
use cnf_nsm.ClientDescriptor.Lifecycle.{is_open, is_connected, GivesFresh, Cleans, create_failed}

-- Whether the client of that name is among those of the metadata.
abbrev pub is_held : List NsmClientMetadata → Bytes → Bool
is_held [] id = false
is_held (m ∷ live) id = str_eq m.nsm_client id || is_held live id

-- The metadata but for those of the client of that name.
abbrev pub without : Bytes → List NsmClientMetadata → List NsmClientMetadata
without id [] = []
without id (m ∷ live) = if str_eq m.nsm_client id then without id live else m ∷ without id live

-- Whether a `Delete` ends the client: the configuration of its interface is built, and the SDK closes its
-- connection and destroys it.
abbrev pub gives_up : Result (List InterfaceConfig) → Option Error → Option Error → Bool
gives_up (err _) unclosed failed = false
gives_up (ok _) (some _) failed = false
gives_up (ok _) none (some _) = false
gives_up (ok _) none none = true

-- The calls of the descriptor, with the metadata of the clients that were created without an error and
-- not given up since.
pub data Leases (names : SdkNames) : NsmClientDescriptor → List NsmClientMetadata → Type 0 where
  begins : Leases names new_nsm_client_descriptor []
  creates :
      (os : Os) (sdk : ClientSdk) (from_env : NsConfiguration) (cfg : NetworkServiceClient)
      (m : NsmClientMetadata) {d : NsmClientDescriptor} {live : List NsmClientMetadata}
      → Leases names d live
      → GivesFresh sdk (client_configuration names from_env cfg) d
      → (create os names sdk from_env cfg d).0 ≡ ok m
      → Leases names (create os names sdk from_env cfg d).1 (m ∷ live)
  cannot_create :
      (os : Os) (sdk : ClientSdk) (from_env : NsConfiguration) (cfg : NetworkServiceClient)
      (e : Error) {d : NsmClientDescriptor} {live : List NsmClientMetadata}
      → Leases names d live
      → Cleans sdk
      → GivesFresh sdk (client_configuration names from_env cfg) d
      → (create os names sdk from_env cfg d).0 ≡ err e
      → Leases names (create os names sdk from_env cfg d).1 live
  deletes :
      (os : Os) (sdk : ClientSdk) (cfg : NetworkServiceClient) (m : NsmClientMetadata)
      {d : NsmClientDescriptor} {live : List NsmClientMetadata}
      → Leases names d live
      → Leases names (delete_client os names sdk cfg m d).1 (
          if gives_up
            (build_interface_config os names cfg m.nsm_conn)
            (sdk.on_close m.nsm_client m.nsm_conn)
            (sdk.on_destroy m.nsm_client)
          then without m.nsm_client live
          else live)

is_held-without :
    (k : Bytes) (live : List NsmClientMetadata) (id : Bytes)
    → is_held (without k live) id ≡ (not (str_eq k id) && is_held live id)
is_held-without k [] id = ground arith
is_held-without k (m ∷ live) id = ground (
  arith,
  is_held-without k live id,
  str_eq_iff m.nsm_client k,
  str_eq_iff m.nsm_client id,
  str_eq_iff k id,
)

module _ (os : Os) (names : SdkNames) (sdk : ClientSdk) where
  open-create :
      (from_env : NsConfiguration) (cfg : NetworkServiceClient) (d : NsmClientDescriptor)
      (m : NsmClientMetadata) (id : Bytes)
      → (create os names sdk from_env cfg d).0 ≡ ok m
      → (is_open (create os names sdk from_env cfg d).1.sdk id
          ≡ (str_eq m.nsm_client id || is_open d.sdk id))
        × (is_connected (create os names sdk from_env cfg d).1.sdk id
            ≡ (str_eq m.nsm_client id || is_connected d.sdk id))
  unfolding create with_client with_connection start_interface is_open is_connected
  open-create from_env cfg d m id made =
      let configuration = client_configuration names from_env cfg in
      elim (Result-cases (sdk.on_new configuration)) [
        | inl (x, h) ↦ absurd (ground arith)
        | inr (client, h) ↦
            elim (Result-cases
              (sdk.on_connect client cfg.interface_name configuration.mechanism_type cfg.name)) [
                | inl (x, k) ↦ absurd (ground arith)
                | inr (conn, k) ↦ elim (Result-cases (build_interface_config os names cfg conn)) [
                  | inl (x, b) ↦ absurd (ground arith)
                  | inr (config, b) ↦ (ground arith, ground arith)
                ]
              ]
      ]

  -- A `Delete` that gets to the end, and one that does not.
  open-delete_client :
      (cfg : NetworkServiceClient) (m : NsmClientMetadata) (d : NsmClientDescriptor) (id : Bytes)
      → (is_open (delete_client os names sdk cfg m d).1.sdk id ≡ (
          not (
            gives_up
              (build_interface_config os names cfg m.nsm_conn)
              (sdk.on_close m.nsm_client m.nsm_conn)
              (sdk.on_destroy m.nsm_client)
            && str_eq m.nsm_client id)
          && is_open d.sdk id))
        × (is_connected (delete_client os names sdk cfg m d).1.sdk id ≡ true
            → (is_connected d.sdk id ≡ true)
              × (gives_up
                      (build_interface_config os names cfg m.nsm_conn)
                      (sdk.on_close m.nsm_client m.nsm_conn)
                      (sdk.on_destroy m.nsm_client)
                    && str_eq m.nsm_client id
                  ≡ false))
  unfolding delete_client end_connection is_open is_connected
  open-delete_client cfg m d id =
      elim (Result-cases (build_interface_config os names cfg m.nsm_conn)) [
        | inl (x, b) ↦ (ground arith, λ h. (ground arith, ground arith))
        | inr (config, b) ↦ elim (Option-cases (sdk.on_close m.nsm_client m.nsm_conn)) [
          | inr (x, c) ↦ (ground arith, λ h. (ground arith, ground arith))
          | inl closed ↦ elim (Option-cases (sdk.on_destroy m.nsm_client)) [
            | inr (y, kept) ↦ (ground arith, λ h. (ground arith, ground arith))
            | inl destroyed ↦ (ground arith, λ h. (ground arith, ground arith))
          ]
        ]
      ]

-- What holds after the calls.
record IsAccounted (d : NsmClientDescriptor) (live : List NsmClientMetadata) : Type 0 where
  clients : (id : Bytes) → is_open d.sdk id ≡ is_held live id
  connections : (id : Bytes) → is_connected d.sdk id ≡ true → is_open d.sdk id ≡ true

module _ (names : SdkNames) where
  begins-IsAccounted : IsAccounted new_nsm_client_descriptor []
  unfolding new_nsm_client_descriptor is_open is_connected
  begins-IsAccounted = record { clients = λ id. refl; connections = λ id h. cc }

  Leases-IsAccounted :
      {d : NsmClientDescriptor} {live : List NsmClientMetadata}
      → Leases names d live
      → IsAccounted d live
  Leases-IsAccounted begins = begins-IsAccounted
  Leases-IsAccounted (creates os sdk from_env cfg m {d} {live} p fresh made) =
      let s = Leases-IsAccounted p in
      let now = open-create os names sdk from_env cfg d m in
      record {
        clients = λ id. (now id made).0 ∙ rw (s.clients id) refl;
        connections = λ id h.
            let (opens, connects) = now id made in
            ground (arith, opens, connects, s.connections id);
      }
  Leases-IsAccounted (cannot_create os sdk from_env cfg e {d} {live} p cleans fresh failed) =
      let s = Leases-IsAccounted p in
      let (_, opens, connects) = create_failed os names sdk from_env cfg d e cleans fresh failed in
      record {
        clients = λ id. opens id ∙ s.clients id;
        connections = λ id h. ground (arith, opens id, connects id, s.connections id);
      }
  Leases-IsAccounted (deletes os sdk cfg m {d} {live} p) =
      let s = Leases-IsAccounted p in
      let now = open-delete_client os names sdk cfg m d in
      let given =
        gives_up (build_interface_config os names cfg m.nsm_conn)
          (sdk.on_close m.nsm_client m.nsm_conn) (sdk.on_destroy m.nsm_client) in
      record {
        clients = λ id. (now id).0 ∙ rw (s.clients id) (remaining given m.nsm_client live id);
        connections = λ id h.
            let (before, stays) = (now id).1 h in ground (arith, (now id).0, s.connections id);
      }
    where
      remaining :
          (given : Bool) (k : Bytes) (live : List NsmClientMetadata) (id : Bytes)
          → (not (given && str_eq k id) && is_held live id)
            ≡ is_held (if given then without k live else live) id
      remaining true k live id = ground (arith, is_held-without k live id)
      remaining false k live id = refl

  -- After any calls of the descriptor, a client of the SDK is open exactly if it is that of a `Create`
  -- without an error, and no `Delete` with its metadata has come since that could build the configuration
  -- of its interface and had the SDK close its connection and destroy it; no connection is left open
  -- without its client. The SDK gives a new client a name that no client has which is open or connected,
  -- and ends what a `Create` that fails asks it to end; in a `Delete` it may fail to.
  pub open-held :
      (d : NsmClientDescriptor) (live : List NsmClientMetadata) (id : Bytes)
      → Leases names d live
      → (is_open d.sdk id ≡ is_held live id)
        × (is_connected d.sdk id ≡ true → is_held live id ≡ true)
  open-held d live id p =
      let s = Leases-IsAccounted p in
      (s.clients id, λ h. ground (arith, s.clients id, s.connections id h))
