-- ===== src/ClientDescriptor/Lifecycle.antt =====
-- What `Create` and `Delete` leave behind.
use cnf_nsm.Common.{
  ◌≡◌, refl, Bool, true, false, not, ◌&&◌, ◌||◌, List, [], ◌∷◌, none, Bytes, arith, str_eq,
  str_eq_refl, str_eq_iff, inl, inr, Option-cases,
}
use cnf_nsm.Proto.{NetworkServiceClient}
use cnf_nsm.Errors.{Error, Result, ok, err, Result-cases}
use cnf_nsm.External.{Os, SdkNames, Connection, NsConfiguration, InterfaceConfig, update, delete}
use cnf_nsm.ClientDescriptor.{
  some, SdkCall, new_client, connect, close, destroy, ClientSdk, NsmClientMetadata,
  NsmClientDescriptor, start_interface, with_connection, with_client, build_interface_config,
  client_configuration, create, delete_client,
}

-- Whether a client of that name was made and not destroyed without an error.
unfoldable pub is_open : List SdkCall → Bytes → Bool
is_open [] id = false
is_open (new_client k ∷ calls) id = str_eq k id || is_open calls id
is_open (destroy k none ∷ calls) id = not (str_eq k id) && is_open calls id
is_open (destroy k (some e) ∷ calls) id = is_open calls id
is_open (connect k c ∷ calls) id = is_open calls id
is_open (close k c failed ∷ calls) id = is_open calls id

-- Whether the client has a connection that it did not close without an error.
unfoldable pub is_connected : List SdkCall → Bytes → Bool
is_connected [] id = false
is_connected (connect k c ∷ calls) id = str_eq k id || is_connected calls id
is_connected (close k c none ∷ calls) id = not (str_eq k id) && is_connected calls id
is_connected (close k c (some e) ∷ calls) id = is_connected calls id
is_connected (new_client k ∷ calls) id = is_connected calls id
is_connected (destroy k failed ∷ calls) id = is_connected calls id

-- The name of a new client is in use by no client that is open or connected.
abbrev pub GivesFresh : ClientSdk → NsConfiguration → NsmClientDescriptor → Type 0
GivesFresh sdk configuration d =
    (k : Bytes)
    → sdk.on_new configuration ≡ ok k
    → (is_open d.sdk k ≡ false) × (is_connected d.sdk k ≡ false)

-- The SDK ends the clients and connections that it is asked to end.
pub record Cleans (sdk : ClientSdk) : Type 0 where
  pub closes : (client : Bytes) (conn : Connection) → sdk.on_close client conn ≡ none
  pub destroys : (client : Bytes) → sdk.on_destroy client ≡ none

module _ (os : Os) (names : SdkNames) (sdk : ClientSdk) where
  -- The three stages of a `Create` that fails.
  start_failed :
      (client : Bytes) (conn : Connection) (r : Result (List InterfaceConfig))
      (d : NsmClientDescriptor) (e : Error)
      → (start_interface os names sdk client conn r d).0 ≡ err e
      → ((start_interface os names sdk client conn r d).1.spawned ≡ d.spawned)
        × ((start_interface os names sdk client conn r d).1.sdk
            ≡ destroy client (sdk.on_destroy client)
              ∷ close client conn (sdk.on_close client conn)
              ∷ d.sdk)
  unfolding start_interface
  start_failed client conn (err x) d e failed = (refl, refl)
  start_failed client conn (ok config) d e failed = cc

  connection_failed :
      (cfg : NetworkServiceClient) (client : Bytes) (r : Result Connection)
      (d : NsmClientDescriptor) (e : Error)
      → Cleans sdk
      → is_connected d.sdk client ≡ false
      → (with_connection os names sdk cfg client r d).0 ≡ err e
      → ((with_connection os names sdk cfg client r d).1.spawned ≡ d.spawned)
        × ((id : Bytes)
            → is_open (with_connection os names sdk cfg client r d).1.sdk id
              ≡ (not (str_eq client id) && is_open d.sdk id))
        × ((id : Bytes)
            → is_connected (with_connection os names sdk cfg client r d).1.sdk id
              ≡ is_connected d.sdk id)
  unfolding with_connection is_open is_connected
  connection_failed cfg client (err x) d e cleans free failed =
      let destroyed = cleans.destroys client in (refl, λ id. ground arith, λ id. refl)
  connection_failed cfg client (ok conn) d e cleans free failed =
      let destroyed = cleans.destroys client in
      let closed = cleans.closes client conn in
      let (kept, calls) =
        start_failed client conn (build_interface_config os names cfg conn)
          (record d { sdk = connect client conn ∷ d.sdk }) e failed in
      (kept, λ id. ground (arith, calls), λ id. ground (arith, calls, str_eq_iff client id, free))

  client_failed :
      (configuration : NsConfiguration) (cfg : NetworkServiceClient) (r : Result Bytes)
      (d : NsmClientDescriptor) (e : Error)
      → Cleans sdk
      → ((k : Bytes) → r ≡ ok k → (is_open d.sdk k ≡ false) × (is_connected d.sdk k ≡ false))
      → (with_client os names sdk configuration cfg r d).0 ≡ err e
      → ((with_client os names sdk configuration cfg r d).1.spawned ≡ d.spawned)
        × ((id : Bytes)
            → is_open (with_client os names sdk configuration cfg r d).1.sdk id ≡ is_open d.sdk id)
        × ((id : Bytes)
            → is_connected (with_client os names sdk configuration cfg r d).1.sdk id
              ≡ is_connected d.sdk id)
  unfolding with_client is_open is_connected
  client_failed configuration cfg (err x) d e cleans fresh failed = (refl, λ id. refl, λ id. refl)
  client_failed configuration cfg (ok client) d e cleans fresh failed =
      let (no_client, no_conn) = fresh client refl in
      let (kept, clients, connections) =
        connection_failed cfg client
          (sdk.on_connect client cfg.interface_name configuration.mechanism_type cfg.name)
          (record d { sdk = new_client client ∷ d.sdk }) e cleans no_conn failed in
      (
        kept,
        λ id. ground (arith, clients id, no_client, str_eq_iff client id),
        λ id. ground (arith, connections id),
      )

  -- A `Create` that fails leaves no client and no connection behind: whatever was opened on the way is
  -- ended, and no interface is asked for. The SDK ends what it is asked to end, and gives a new client a
  -- name that no client has which is open or connected.
  pub create_failed :
      (from_env : NsConfiguration) (cfg : NetworkServiceClient) (d : NsmClientDescriptor)
      (e : Error)
      → Cleans sdk
      → GivesFresh sdk (client_configuration names from_env cfg) d
      → (create os names sdk from_env cfg d).0 ≡ err e
      → ((create os names sdk from_env cfg d).1.spawned ≡ d.spawned)
        × ((id : Bytes) → is_open (create os names sdk from_env cfg d).1.sdk id ≡ is_open d.sdk id)
        × ((id : Bytes)
            → is_connected (create os names sdk from_env cfg d).1.sdk id ≡ is_connected d.sdk id)
  unfolding create
  create_failed from_env cfg d e cleans fresh failed =
      let configuration = client_configuration names from_env cfg in
      client_failed configuration cfg (sdk.on_new configuration) d e cleans fresh failed

  -- A `Create` that succeeds has opened a client and a connection, which it returns, and asked for the
  -- interface of that connection.
  pub create_succeeded :
      (from_env : NsConfiguration) (cfg : NetworkServiceClient) (d : NsmClientDescriptor)
      (m : NsmClientMetadata)
      → (create os names sdk from_env cfg d).0 ≡ ok m
      → (config : List InterfaceConfig) × (build_interface_config os names cfg m.nsm_conn
          ≡ ok config)
        × ((create os names sdk from_env cfg d).1.spawned ≡ update config ∷ d.spawned)
        × (is_open (create os names sdk from_env cfg d).1.sdk m.nsm_client ≡ true)
        × (is_connected (create os names sdk from_env cfg d).1.sdk m.nsm_client ≡ true)
  unfolding create is_open is_connected
  create_succeeded from_env cfg d m made =
      let configuration = client_configuration names from_env cfg in
      elim (Result-cases (sdk.on_new configuration)) [
        | inl (x, h) ↦ absurd (ground arith)
        | inr (client, h) ↦
            elim (Result-cases
              (sdk.on_connect client cfg.interface_name configuration.mechanism_type cfg.name)) [
                | inl (x, k) ↦ absurd (ground arith)
                | inr (conn, k) ↦ elim (Result-cases (build_interface_config os names cfg conn)) [
                  | inl (x, b) ↦ absurd (ground arith)
                  | inr (config, b) ↦ (
                    config,
                    ground arith,
                    ground arith,
                    ground (arith, str_eq_refl client),
                    ground (arith, str_eq_refl client),
                  )
                ]
              ]
      ]

  -- Where `Delete` returns no error, it has asked for the removal of the interface, with the
  -- configuration that is built for the connection, and the client is neither open nor connected.
  pub delete_client_succeeded :
      (cfg : NetworkServiceClient) (m : NsmClientMetadata) (d : NsmClientDescriptor)
      → (delete_client os names sdk cfg m d).0 ≡ none
      → (config : List InterfaceConfig) × (build_interface_config os names cfg m.nsm_conn
          ≡ ok config)
        × ((delete_client os names sdk cfg m d).1.spawned ≡ delete config ∷ d.spawned)
        × (is_open (delete_client os names sdk cfg m d).1.sdk m.nsm_client ≡ false)
        × (is_connected (delete_client os names sdk cfg m d).1.sdk m.nsm_client ≡ false)
  unfolding delete_client is_open is_connected
  delete_client_succeeded cfg m d done =
      elim (Result-cases (build_interface_config os names cfg m.nsm_conn)) [
        | inl (x, b) ↦ absurd (ground arith)
        | inr (config, b) ↦ elim (Option-cases (sdk.on_close m.nsm_client m.nsm_conn)) [
          | inr (x, h) ↦ absurd (ground arith)
          | inl closed ↦ (
            config,
            b,
            ground arith,
            ground (arith, str_eq_refl m.nsm_client),
            ground (arith, str_eq_refl m.nsm_client),
          )
        ]
      ]
