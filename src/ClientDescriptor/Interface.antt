-- ===== src/ClientDescriptor/Interface.antt =====
-- The interface of a client's connection, against that of the endpoint at its other end.
use cnf_nsm.Common.{ℕ, ◌≡◌, refl, true, false, List, [], ◌∷◌, Bytes, arith, inl, inr}
use cnf_nsm.GoLib.FilePath.{join_path}
use cnf_nsm.Proto.{NetworkServiceClient, mem_interface}
use cnf_nsm.Errors.{ok, Result-cases}
use cnf_nsm.External.{Os, SdkNames, Connection, InterfaceConfig, memif, MemifInterface}
use cnf_nsm.Naming.{nsm_base_dir}
use cnf_nsm.Endpoint
use cnf_nsm.Endpoint.{NsmEndpoint}
use cnf_nsm.Endpoint.Interface.{built_memif}
use cnf_nsm.ClientDescriptor.{typed_config, memif_config, build_interface_config}

memif_typed :
    (os : Os) (names : SdkNames) (cfg : NetworkServiceClient) (conn : Connection)
    (configs : List InterfaceConfig)
    → cfg.interface_type ≡ mem_interface
    → build_interface_config os names cfg conn ≡ ok configs
    → (base_dir : Bytes) × (nsm_base_dir os names ≡ ok base_dir)
      × (configs ≡ memif_config cfg (join_path base_dir conn.socket_filename) ∷ [])
unfolding build_interface_config typed_config
memif_typed os names cfg conn configs mem built = elim (Result-cases (nsm_base_dir os names)) [
  | inl (x, h) ↦ absurd (ground arith)
  | inr (base_dir, h) ↦ (base_dir, h, ground arith)
]

-- A client and an endpoint whose interfaces are memifs, with connections that name one socket and with
-- one base directory, get memifs on one socket, of which the endpoint's is the master and the client's
-- is not.
pub memif_pair :
    (os os' : Os) (names : SdkNames) (cfg : NetworkServiceClient) (e : NsmEndpoint)
    (conn conn' : Connection) (configs : List InterfaceConfig) (c : InterfaceConfig) (i : ℕ)
    → cfg.interface_type ≡ mem_interface
    → e.cfg.interface_type ≡ mem_interface
    → conn.socket_filename ≡ conn'.socket_filename
    → nsm_base_dir os names ≡ nsm_base_dir os' names
    → build_interface_config os names cfg conn ≡ ok configs
    → Endpoint.build_interface_config os' names e e.cfg conn' ≡ ok (c, i)
    → (client endpoint : MemifInterface) × (configs ≡ memif client ∷ [])
      × (c ≡ memif endpoint)
      × (client.socket_filename ≡ endpoint.socket_filename)
      × (client.master ≡ false)
      × (endpoint.master ≡ true)
unfolding memif_config Endpoint.memif_config
memif_pair os os' names cfg e conn conn' configs c i mem mem' same_socket same_dir built built' =
    let (base_dir, found, client) = memif_typed os names cfg conn configs mem built in
    let (base_dir', name, found', made, endpoint) = built_memif os' names e conn' c i mem' built' in
    (_, _, client, endpoint, ground arith, refl, refl)
