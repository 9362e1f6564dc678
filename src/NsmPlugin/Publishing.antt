-- ===== src/NsmPlugin/Publishing.antt =====
-- What the endpoints of an initialized plugin publish.
use cnf_nsm.Common.{
  ◌≡◌, refl, ◌∙◌, Bool, true, false, ◌&&◌, List, [], Option, none, some, Bytes, codes, arith,
  Option-cases, inl, inr,
}
use mathlib.Core.Path.{subst}
use mathlib.Core.Option.{some-injective}
use cnf_nsm.Errors.{Error}
use cnf_nsm.Proto.{NetworkServiceEndpoint}
use cnf_nsm.External.{SdkNames, NsConfiguration}
use cnf_nsm.Demux.{DemuxEnv}
use cnf_nsm.EndpointDescriptor.{
  NsmEndpointDescriptor, new_nsm_endpoint_descriptor, create, publish, published,
}
use cnf_nsm.EndpointDescriptor.Notifications.{
  is_none, is_published, is_published-create, names_label,
}
use cnf_nsm.NsmPlugin.{NsmPlugin, is_injected, register_endpoints, init}

new_nsm_endpoint_descriptor-publishes :
    (injected : Bool) (names : SdkNames) (env : DemuxEnv) (from_env : NsConfiguration)
    (cfg : NetworkServiceEndpoint) (key : Bytes)
    → is_published (create names env from_env cfg (new_nsm_endpoint_descriptor injected)).1 key ≡ (
        injected
        && (is_none (create names env from_env cfg (new_nsm_endpoint_descriptor injected)).0
            && (is_none (env.on_put key) && names_label cfg cfg.advertised_labels key)))
unfolding new_nsm_endpoint_descriptor create publish published
new_nsm_endpoint_descriptor-publishes true names env from_env cfg key =
    is_published-create names env from_env cfg (new_nsm_endpoint_descriptor true) [] key refl
    ∙ ground arith
new_nsm_endpoint_descriptor-publishes false names env from_env cfg key = ground arith

-- The first endpoint that is created by the descriptor of an initialized plugin is announced exactly
-- if the plugin has a publisher and the creation returns no error: then the keys of the labels of the
-- endpoint that the publisher takes are published, and no others.
pub init_publishes :
    (register : Bytes → Option Error) (p : NsmPlugin) (sent : List Bytes)
    (d : NsmEndpointDescriptor) (names : SdkNames) (env : DemuxEnv) (from_env : NsConfiguration)
    (cfg : NetworkServiceEndpoint) (key : Bytes)
    → (init register p sent).0 ≡ none
    → (init register p sent).1.nsm_endpoint_descriptor ≡ some d
    → is_published (create names env from_env cfg d).1 key ≡ (
        is_injected p.notif_publisher
        && (is_none (create names env from_env cfg d).0
            && (is_none (env.on_put key) && names_label cfg cfg.advertised_labels key)))
unfolding init register_endpoints
init_publishes register p sent d names env from_env cfg key done made =
    elim (Option-cases (register (codes "nsm-client-descriptor"))) [
      | inr (e, refused) ↦ absurd (ground arith)
      | inl accepted ↦
          let same : new_nsm_endpoint_descriptor (is_injected p.notif_publisher) ≡ d =
            some-injective _ _ (ground arith) in
          subst
            (λ d'. is_published (create names env from_env cfg d').1 key ≡ (
              is_injected p.notif_publisher
              && (is_none (create names env from_env cfg d').0
                  && (is_none (env.on_put key) && names_label cfg cfg.advertised_labels key))))
            same
            (new_nsm_endpoint_descriptor-publishes (is_injected p.notif_publisher) names env
              from_env cfg key)
    ]
