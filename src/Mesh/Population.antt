-- ===== src/Mesh/Population.antt =====
-- The clients of several agents at the endpoints of one, as they come and go.
pub mod Held
pub mod Apart
use cnf_nsm.Common.{◌≡◌, ◌≢◌, ◌⊎◌, List, [], ◌∷◌, some, none, Bytes, Option}
use cnf_nsm.Common.GoMap.{lookup}
use cnf_nsm.Errors.{Error, ok, err}
use cnf_nsm.Proto.{NetworkServiceClient, NetworkServiceEndpoint}
use cnf_nsm.External.{Os, SdkNames, Connection, NsConfiguration, InterfaceConfig}
use cnf_nsm.Endpoint.{NsmConnection, NsmEndpoint}
use cnf_nsm.Endpoint.Invariant.{IsValid}
use cnf_nsm.Demux.{DemuxEnv, EndpointReg, NsmEndpointDemux, demux_request, demux_close}
use cnf_nsm.Demux.Serving.{AllServices}
use cnf_nsm.ClientDescriptor.{
  ClientSdk, NsmClientMetadata, NsmClientDescriptor, create, delete_client,
}
use cnf_nsm.EndpointDescriptor
use cnf_nsm.EndpointDescriptor.{Composite, NsmEndpointDescriptor, delete_nse}
use cnf_nsm.Mesh.{last_handlers, asked_for, linked, closing}

-- The metadata of a client among those of others.
abbrev pub IsIn : NsmClientMetadata → List NsmClientMetadata → Type 0
IsIn m [] = ⊥
IsIn m (l ∷ live) = (m ≡ l) ⊎ IsIn m live

-- No client that is there has the identifier of the connection.
abbrev pub IsStrange : Connection → List NsmClientMetadata → Type 0
IsStrange conn [] = Unit
IsStrange conn (l ∷ live) = (conn.id ≢ l.nsm_conn.id) × IsStrange conn live

-- The clients that are there but for those with an identifier.
abbrev pub Others : Bytes → List NsmClientMetadata → List NsmClientMetadata → Type 0
Others id live left = (m : NsmClientMetadata) → IsIn m left → IsIn m live × (id ≢ m.nsm_conn.id)

-- The clients that are there but for those of a network service.
abbrev pub Elsewhere : Bytes → List NsmClientMetadata → List NsmClientMetadata → Type 0
Elsewhere service live left =
    (m : NsmClientMetadata) → IsIn m left → IsIn m live × (service ≢ m.nsm_conn.network_service)

-- The demultiplexer of an agent, and the clients of any agents that are there: NSM gives the connection
-- of a new client an identifier that no client has which is there. Beside them NSM may ask for any
-- connections of strangers, or for their end, such as those of a client whose `Create` fails. A
-- `Delete` that fails may have ended the connection or not; the client is not counted any more. The
-- agent may create and delete endpoints; the clients of a network service whose endpoint is replaced,
-- or deleted, are not counted any more either.
pub data Population (names : SdkNames) (composite : Composite)
    : NsmEndpointDemux NsmEndpoint → List NsmClientMetadata → Type 0 where
  begins :
      (x : NsmEndpointDemux NsmEndpoint)
      → AllServices IsValid x.endpoints
      → Population names composite x []
  comes :
      (os os' : Os) (order : NsmEndpoint → List NsmConnection)
      (asks : Bytes → Bytes → Bytes → Bytes → Connection) (sdk : ClientSdk)
      (from_env : NsConfiguration) (cfg : NetworkServiceClient) (d : NsmClientDescriptor)
      {x : NsmEndpointDemux NsmEndpoint} {live : List NsmClientMetadata} {m : NsmClientMetadata}
      → Population names composite x live
      → (create os names
          (linked (last_handlers os' names composite order) x asks sdk)
          from_env
          cfg
          d).0
        ≡ ok m
      → IsStrange m.nsm_conn live
      → Population names composite
          (demux_request
            (last_handlers os' names composite order)
            x
            (asked_for asks names from_env cfg m)).1
          (m ∷ live)
  goes :
      (os os' : Os) (order : NsmEndpoint → List NsmConnection) (sdk : ClientSdk)
      (cfg : NetworkServiceClient) (d : NsmClientDescriptor) {x : NsmEndpointDemux NsmEndpoint}
      {live : List NsmClientMetadata} (m : NsmClientMetadata) (left : List NsmClientMetadata)
      → Population names composite x live
      → (delete_client os names (closing (last_handlers os' names composite order) x sdk) cfg m d).0
        ≡ none
      → Others m.nsm_conn.id live left
      → Population names composite
          (demux_close (last_handlers os' names composite order) x m.nsm_conn).1
          left
  is_lost :
      (m : NsmClientMetadata) (left : List NsmClientMetadata) {x : NsmEndpointDemux NsmEndpoint}
      {live : List NsmClientMetadata}
      → Population names composite x live
      → Others m.nsm_conn.id live left
      → Population names composite x left
  stranger_comes :
      (os : Os) (order : NsmEndpoint → List NsmConnection) (conn : Connection)
      {x : NsmEndpointDemux NsmEndpoint} {live : List NsmClientMetadata}
      → Population names composite x live
      → IsStrange conn live
      → Population names composite
          (demux_request (last_handlers os names composite order) x conn).1
          live
  stranger_goes :
      (os : Os) (order : NsmEndpoint → List NsmConnection) (conn : Connection)
      {x : NsmEndpointDemux NsmEndpoint} {live : List NsmClientMetadata}
      → Population names composite x live
      → IsStrange conn live
      → Population names composite
          (demux_close (last_handlers os names composite order) x conn).1
          live
  offers :
      (env : DemuxEnv) (from_env : NsConfiguration) (cfg : NetworkServiceEndpoint)
      (d : NsmEndpointDescriptor) {live : List NsmClientMetadata} (left : List NsmClientMetadata)
      → Population names composite d.ep_demux live
      → Elsewhere cfg.network_service live left
      → Population names composite
          (EndpointDescriptor.create names env from_env cfg d).1.ep_demux
          left
  cannot_offer :
      (env : DemuxEnv) (from_env : NsConfiguration) (cfg : NetworkServiceEndpoint)
      (d : NsmEndpointDescriptor) (e : Error) {live : List NsmClientMetadata}
      → Population names composite d.ep_demux live
      → (EndpointDescriptor.create names env from_env cfg d).0 ≡ some e
      → Population names composite
          (EndpointDescriptor.create names env from_env cfg d).1.ep_demux
          live
  withdraws :
      (os : Os) (order : NsmEndpoint → List NsmConnection) (env : DemuxEnv)
      (cfg : NetworkServiceEndpoint) (d : NsmEndpointDescriptor) {live : List NsmClientMetadata}
      (left : List NsmClientMetadata)
      → Population names composite d.ep_demux live
      → Elsewhere cfg.network_service live left
      → Population names composite
          (delete_nse (last_handlers os names composite order) env cfg d).1.ep_demux
          left
