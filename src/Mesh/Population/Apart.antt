-- ===== src/Mesh/Population/Apart.antt =====
-- The interfaces of the clients, at the endpoints.
use cnf_nsm.Common.{◌≡◌, ◌≢◌, sym, ap, ◌∙◌, true, List, [], ◌++◌, some, none, inl, inr}
use cnf_nsm.Common.GoMap.{lookup}
use cnf_nsm.GoLib.Decimal.{itoa}
use cnf_nsm.External.Kinds.{interface_kind, same_kind_refl}
use cnf_nsm.External.{Connection, Os, SdkNames, configured}
use cnf_nsm.Endpoint.{NsmConnection, NsmEndpoint}
use cnf_nsm.Endpoint.Invariant.{IsValid}
use cnf_nsm.Endpoint.Names.{names_differ, open_name-lookup}
use cnf_nsm.Demux.{EndpointReg, NsmEndpointDemux, demux_request}
use cnf_nsm.Demux.Serving.{Keeps, AllServices, demux_request-AllServices, demux_close-AllServices}
use cnf_nsm.EndpointDescriptor.System.{
  delete_nse-AllServices, create-AllServices, endpoint_handlers-Keeps,
}
use cnf_nsm.ClientDescriptor.{NsmClientMetadata}
use cnf_nsm.EndpointDescriptor.Passing.{IsPassing, IsPassing-IsTransparent}
use cnf_nsm.Mesh.{Composite, last_handlers, asked_for}
use cnf_nsm.Mesh.Connecting.{created_connects, created_granted}
use cnf_nsm.Mesh.Population.Held.{
  Holds-withdrawn, Holds-cannot_offer, Holds-offered, Holds, IsStrange-ne, Holds-demux_request,
  Holds-demux_close, Holds-granted, at_endpoint,
}
use cnf_nsm.Mesh.Population.{
  offers, cannot_offer, withdraws, IsIn, Population, begins, comes, goes, is_lost, stranger_comes,
  stranger_goes,
}

-- What holds of a population: the endpoints are valid, and every client has its connection at one.
record IsServed (x : NsmEndpointDemux NsmEndpoint) (live : List NsmClientMetadata) : Type 0 where
  valid : AllServices IsValid x.endpoints
  held : (m : NsmClientMetadata) → IsIn m live → Holds x m

module _ (names : SdkNames) (composite : Composite) (passing : IsPassing composite) where
  keeps :
      (os : Os) (order : NsmEndpoint → List NsmConnection)
      → Keeps IsValid (last_handlers os names composite order)
  keeps os order =
      endpoint_handlers-Keeps names composite (IsPassing-IsTransparent composite passing) os none
        order

  Population-IsServed :
      {x : NsmEndpointDemux NsmEndpoint} {live : List NsmClientMetadata}
      → Population names composite x live
      → IsServed x live
  Population-IsServed (begins x valid) = record { valid = valid; held = λ m i. absurd i }
  Population-IsServed (comes os os' order asks sdk from_env cfg d {x} {live} {m} p made strange) =
      let s = Population-IsServed p in
      let asked = asked_for asks names from_env cfg m in
      let (_, prepared) =
        created_granted os os' names composite passing order x asks sdk from_env cfg d m made in
      let new : m.nsm_conn.id ≡ asked.id =
        ap (λ (c : Connection). c.id) prepared ∙ passing.same_id asked in
      let (_, before, after, _, _, _, at, granted) =
        created_connects os os' names composite passing order x asks sdk from_env cfg d m made in
      record {
        valid = demux_request-AllServices IsValid _ (keeps os' order) x asked s.valid;
        held = λ l i. elim i [
          | inl e ↦ rw e (
              Holds-granted os' names
                (demux_request (last_handlers os' names composite order) x asked).1 m before.service
                after at granted)
          | inr old ↦
              Holds-demux_request os' names composite passing order x asked l (s.held l old)
                (λ e. IsStrange-ne m.nsm_conn l live strange old (new ∙ e))
        ];
      }
  Population-IsServed (goes os os' order sdk cfg d {x} {live} m left p done others) =
      let s = Population-IsServed p in
      record {
        valid = demux_close-AllServices IsValid _ (keeps os' order) x m.nsm_conn s.valid;
        held = λ l i.
            let (stays, differs) = others l i in
            Holds-demux_close os' names composite passing order x m.nsm_conn l (s.held l stays)
              differs;
      }
  Population-IsServed (is_lost m left p others) =
      let s = Population-IsServed p in
      record { valid = s.valid; held = λ l i. s.held l (others l i).0 }
  Population-IsServed (stranger_comes os order conn {x} {live} p strange) =
      let s = Population-IsServed p in
      record {
        valid = demux_request-AllServices IsValid _ (keeps os order) x conn s.valid;
        held = λ l i.
            Holds-demux_request os names composite passing order x conn l (s.held l i)
              (IsStrange-ne conn l live strange i);
      }
  Population-IsServed (stranger_goes os order conn {x} {live} p strange) =
      let s = Population-IsServed p in
      record {
        valid = demux_close-AllServices IsValid _ (keeps os order) x conn s.valid;
        held = λ l i.
            Holds-demux_close os names composite passing order x conn l (s.held l i)
              (IsStrange-ne conn l live strange i);
      }
  Population-IsServed (offers env from_env cfg d left p elsewhere) =
      let s = Population-IsServed p in
      record {
        valid = create-AllServices names env from_env cfg d s.valid;
        held = λ l i.
            let (stays, differs) = elsewhere l i in
            Holds-offered names env cfg d l (s.held l stays) from_env differs;
      }
  Population-IsServed (cannot_offer env from_env cfg d e p failed) =
      let s = Population-IsServed p in
      record {
        valid = create-AllServices names env from_env cfg d s.valid;
        held = λ l i. Holds-cannot_offer names env cfg d l (s.held l i) from_env e failed;
      }
  Population-IsServed (withdraws os order env cfg d left p elsewhere) =
      let s = Population-IsServed p in
      record {
        valid = delete_nse-AllServices _ (keeps os order) env cfg d s.valid;
        held = λ l i.
            let (stays, differs) = elsewhere l i in
            Holds-withdrawn names env cfg d l (s.held l stays) os composite order differs;
      }

  -- However the clients of any agents come and go at the endpoints of one, with an identifier each that
  -- no other client has, whatever strangers do in between, and whatever endpoints the agent creates and
  -- deletes: each client that is there, and whose endpoint was neither replaced nor deleted since it
  -- came, has its connection open at the endpoint that is registered for its network service. If the
  -- names of the interfaces of that endpoint end in indexes, the one that has the index of the client is
  -- configured, of the kind of the endpoint, and every other client of the endpoint has another name.
  -- The composite of the SDK hands calls on or refuses them, and leaves identifiers and network services
  -- as they are.
  pub interfaces_apart :
      (x : NsmEndpointDemux NsmEndpoint) (live : List NsmClientMetadata) (m : NsmClientMetadata)
      → Population names composite x live
      → IsIn m live
      → (ep : EndpointReg NsmEndpoint) × (c : NsmConnection) × (lookup m.nsm_conn.network_service
            x.endpoints
          ≡ some ep)
        × (lookup m.nsm_conn.id ep.service.connections ≡ some c)
        × (ep.service.cfg.interface_name_suffix_from_label ≡ []
            → (configured
                  (interface_kind ep.service.cfg.interface_type)
                  ep.service.localclient
                  (ep.service.cfg.interface_name_prefix ++ itoa c.index)
                ≡ true)
              × ((l : NsmClientMetadata)
                  → IsIn l live
                  → m.nsm_conn.id ≢ l.nsm_conn.id
                  → m.nsm_conn.network_service ≡ l.nsm_conn.network_service
                  → (b : NsmConnection) × (lookup l.nsm_conn.id ep.service.connections ≡ some b)
                    × (ep.service.cfg.interface_name_prefix ++ itoa c.index
                        ≢ ep.service.cfg.interface_name_prefix ++ itoa b.index)))
  interfaces_apart x live m p is_in =
      let s = Population-IsServed p in
      let (ep, c, at, found) = s.held m is_in in
      let prefix = ep.service.cfg.interface_name_prefix in
      (
        ep,
        c,
        at,
        found,
        λ by_index.
            let tracks = (s.valid m.nsm_conn.network_service ep at).tracks by_index in
            (
              tracks.live (interface_kind ep.service.cfg.interface_type) _
                  ∙ rw (same_kind_refl (interface_kind ep.service.cfg.interface_type))
                      (open_name-lookup prefix m.nsm_conn.id ep.service.connections c found),
              λ l also other one.
                  let (b, there) =
                    at_endpoint x l ep (s.held l also)
                      (ap (λ n. lookup n x.endpoints) (sym one) ∙ at) in
                  (
                    b,
                    there,
                    names_differ prefix m.nsm_conn.id l.nsm_conn.id ep.service.connections c b found
                        there other tracks.indexes,
                  ),
            ),
      )
