-- ===== src/Adapter/Scheduling.antt =====
-- The calls that the KV scheduler makes on the adapted descriptor of endpoints, among those of NSM.
use mathlib.Core.Option
use cnf_nsm.Common.{[], ◌∷◌, List, Option, none, some, Bytes}
use cnf_nsm.Errors.{Error, Result, ok, err, invalid_value_type}
use cnf_nsm.External.{Os, SdkNames, Connection, NsConfiguration, Model}
use cnf_nsm.Endpoint.{NsmConnection, NsmEndpoint, Next}
use cnf_nsm.Demux.{DemuxEnv, demux_request, demux_close}
use cnf_nsm.EndpointDescriptor.{
  Composite, NsmEndpointDescriptor, endpoint_handlers, create, delete_nse, validate,
}
use cnf_nsm.Adapter.Values.{Message, Metadata}
use cnf_nsm.Adapter.{KvWithMetadata, Descriptor}
use cnf_nsm.Adapter.Endpoint.{new_nsm_endpoint_kv_descriptor}

-- What its surroundings answer in one call, and the configuration that the environment gives it.
pub record Surroundings : Type 0 where
  pub os : Os
  pub next : Option Next
  pub order : NsmEndpoint → List NsmConnection
  pub env : DemuxEnv
  pub from_env : NsConfiguration

-- One call: the scheduler validates, creates, deletes, updates or retrieves, with any key, any message
-- and any metadata, or NSM asks for a connection or its end.
pub data ScheduledCall : Type 0 where
  schedules_validate : Surroundings → Bytes → Message → ScheduledCall
  schedules_create : Surroundings → Bytes → Message → ScheduledCall
  schedules_delete : Surroundings → Bytes → Message → Metadata → ScheduledCall
  schedules_update : Surroundings → Bytes → Message → Message → Metadata → ScheduledCall
  schedules_retrieve : Surroundings → List (KvWithMetadata Message Metadata) → ScheduledCall
  mesh_requests : Surroundings → Connection → ScheduledCall
  mesh_closes : Surroundings → Connection → ScheduledCall

abbrev error_of : {A : Type 0} → Result A → Option Error
error_of (ok a) = none
error_of (err e) = some e

-- The answer of a function of the descriptor with the state behind it; one that is nil is not called.
abbrev called :
    {A : Type 0}
    → Option (Result A × NsmEndpointDescriptor)
    → NsmEndpointDescriptor
    → Option Error × NsmEndpointDescriptor
called none d = (none, d)
called (some (r, d')) d = (error_of r, d')

abbrev called_for_error :
    Option (Option Error × NsmEndpointDescriptor)
    → NsmEndpointDescriptor
    → Option Error × NsmEndpointDescriptor
called_for_error none d = (none, d)
called_for_error (some r) d = r

-- The answers of calls one after the other, with the state behind them.
abbrev pub in_turn :
    (ScheduledCall → NsmEndpointDescriptor → Option Error × NsmEndpointDescriptor)
    → List ScheduledCall
    → NsmEndpointDescriptor
    → List (Option Error) × NsmEndpointDescriptor
in_turn f [] d = ([], d)
in_turn f (c ∷ calls) d = let rest = in_turn f calls (f c d).1 in ((f c d).0 ∷ rest.0, rest.1)

module _ (names : SdkNames) (composite : Composite) (model : Model) where
  -- A call of NSM, which the demultiplexer takes.
  abbrev asked :
      Surroundings → Connection → NsmEndpointDescriptor → Option Error × NsmEndpointDescriptor
  asked s conn d =
      let answer =
        demux_request (endpoint_handlers s.os names composite s.next s.order) d.ep_demux conn in
      (answer.0.1, record d { ep_demux = answer.1 })

  abbrev ended :
      Surroundings → Connection → NsmEndpointDescriptor → Option Error × NsmEndpointDescriptor
  ended s conn d =
      let answer =
        demux_close (endpoint_handlers s.os names composite s.next s.order) d.ep_demux conn in
      (answer.0, record d { ep_demux = answer.1 })

  -- The descriptor as the scheduler has it.
  abbrev scheduled : Surroundings → Descriptor Message Metadata NsmEndpointDescriptor
  scheduled s =
      new_nsm_endpoint_kv_descriptor names (endpoint_handlers s.os names composite s.next s.order)
        s.env s.from_env model

  -- A call on the adapted descriptor.
  abbrev pub adapted : ScheduledCall → NsmEndpointDescriptor → Option Error × NsmEndpointDescriptor
  adapted (schedules_validate s key value) d =
      called_for_error (Option.map (λ f. (f key value, d)) (scheduled s).validate) d
  adapted (schedules_create s key value) d =
      called (Option.map (λ f. f key value d) (scheduled s).create) d
  adapted (schedules_delete s key value metadata) d =
      called_for_error (Option.map (λ f. f key value metadata d) (scheduled s).delete) d
  adapted (schedules_update s key old new metadata) d =
      called (Option.map (λ f. f key old new metadata d) (scheduled s).update) d
  adapted (schedules_retrieve s correlate) d =
      called (Option.map (λ f. f correlate d) (scheduled s).retrieve) d
  adapted (mesh_requests s conn) d = asked s conn d
  adapted (mesh_closes s conn) d = ended s conn d

  -- What the call is for: an endpoint is validated, created or deleted, and messages of another type
  -- are refused; there is nothing to update or to retrieve.
  abbrev pub intended : ScheduledCall → NsmEndpointDescriptor → Option Error × NsmEndpointDescriptor
  intended (schedules_validate s key (Message.endpoint cfg)) d = (validate cfg, d)
  intended (schedules_validate s key (Message.client cfg)) d = (some (invalid_value_type key), d)
  intended (schedules_validate s key (Message.other x)) d = (some (invalid_value_type key), d)
  intended (schedules_create s key (Message.endpoint cfg)) d = create names s.env s.from_env cfg d
  intended (schedules_create s key (Message.client cfg)) d = (some (invalid_value_type key), d)
  intended (schedules_create s key (Message.other x)) d = (some (invalid_value_type key), d)
  intended (schedules_delete s key (Message.endpoint cfg) metadata) d =
      delete_nse (endpoint_handlers s.os names composite s.next s.order) s.env cfg d
  intended (schedules_delete s key (Message.client cfg) metadata) d =
      (some (invalid_value_type key), d)
  intended (schedules_delete s key (Message.other x) metadata) d =
      (some (invalid_value_type key), d)
  intended (schedules_update s key old new metadata) d = (none, d)
  intended (schedules_retrieve s correlate) d = (none, d)
  intended (mesh_requests s conn) d = asked s conn d
  intended (mesh_closes s conn) d = ended s conn d
