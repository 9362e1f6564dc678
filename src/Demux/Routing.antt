-- ===== src/Demux/Routing.antt =====
-- To whom the demultiplexer hands requests.
use cnf_nsm.Common.{◌≡◌, ◌⊎◌, none, some, Bytes, str_eq, if◌then◌else◌, Option-cases, inl, inr}
use cnf_nsm.Common.GoMap.{lookup, lookup-insert}
use cnf_nsm.Errors.{no_such_service}
use cnf_nsm.External.{Connection}
use cnf_nsm.Demux.{Handlers, EndpointReg, NsmEndpointDemux, put_service, demux_request, demux_close}

-- What is stored for a network service, where `ep` was, once its handler has left the service so.
abbrev pub handled : {S : Type 0} → EndpointReg S → S → EndpointReg S
handled ep service = record ep { service = service }

module _ {S : Type 0} (h : Handlers S) (x : NsmEndpointDemux S) (conn : Connection) where
  -- A request for a connection, or the closing of one, for a network service that is not registered is
  -- refused and changes nothing. For one that is registered it is answered by the endpoint of that
  -- service, and by no other: that endpoint has the state which its handler left, and every other
  -- registration is as it was.
  pub demux_routing :
      ((lookup conn.network_service x.endpoints ≡ none)
        × (demux_request h x conn ≡ ((conn, some (no_such_service conn.network_service)), x))
        × (demux_close h x conn ≡ (some (no_such_service conn.network_service), x)))
      ⊎ ((ep : EndpointReg S) × (lookup conn.network_service x.endpoints ≡ some ep)
          × ((demux_request h x conn).0 ≡ (h.request ep.service conn).0)
          × ((demux_close h x conn).0 ≡ (h.close ep.service conn).0)
          × ((name : Bytes)
              → (lookup name (demux_request h x conn).1.endpoints ≡ (
                  if str_eq conn.network_service name
                  then some (handled ep (h.request ep.service conn).1)
                  else lookup name x.endpoints))
                × (lookup name (demux_close h x conn).1.endpoints ≡ (
                    if str_eq conn.network_service name
                    then some (handled ep (h.close ep.service conn).1)
                    else lookup name x.endpoints))))
  unfolding demux_request demux_close put_service
  demux_routing = elim (Option-cases (lookup conn.network_service x.endpoints)) [
    | inl absent ↦ inl (absent, rw (absent, demux_request), rw (absent, demux_close))
    | inr (ep, found) ↦ inr (
      ep,
      found,
      rw (found, demux_request),
      rw (found, demux_close),
      λ name. (
        rw (found, demux_request) (lookup-insert conn.network_service name _ x.endpoints),
        rw (found, demux_close) (lookup-insert conn.network_service name _ x.endpoints),
      ),
    )
  ]
