-- ===== src/Tests/KubeClients.antt =====
-- Witnesses for the clients of the CRD.
use cnf_nsm.Common.{
  ◌≡◌, refl, ap, ◌∙◌, arith, str_eq, str_eq_iff, if◌then◌else◌, true, false, List, [], ◌∷◌, Option,
  none, some, codes, Bytes, ltb,
}
use mathlib.Core.Path.{subst}
use cnf_nsm.GoLib.Strings.Laws.{Lacks}
use cnf_nsm.Common.Int64.{ℤ, pos, is_negative}
use cnf_nsm.Errors.{ok}
use cnf_nsm.Crd.DeepCopy.{CnfConfiguration}
use cnf_nsm.Crd.Handler.{Cluster, cnf_configuration}
use cnf_nsm.Crd.Client.{
  ListOptions, RestRequest, RestClient, PantheonV1Client, empty_configuration, list_timeout,
}
use cnf_nsm.Crd.Client.Config.{
  RestConfig, KubeLibrary, Clientset, set_config_defaults, new_for_config, rate_limited,
  new_pantheon_for_config,
}
use cnf_nsm.Crd.Client.Interface.{pantheon_v1_interface, fake_pantheon_v1}
use cnf_nsm.Crd.Client.Fake.{Testing}
use cnf_nsm.Crd.Client.Lister.{Indexer, CnfConfigurationNamespaceLister}
use cnf_nsm.Crd.Client.Requests
use cnf_nsm.Crd.Client.Requests.{Call, run, KeepsApart, observe-run}
use cnf_nsm.Crd.Client.Parity.{recording, fake_recording, fake_run_lem}
use cnf_nsm.Crd.Client.Timeout.{list_timeout_wraps}
use cnf_nsm.Crd.Client.RateLimited.{IsLimiterOf, new_for_config_lem}
use cnf_nsm.Crd.Client.Listing.{IsKeyed, meta_namespace_key}

abbrev sample_cnf : CnfConfiguration
sample_cnf = record empty_configuration {
  object_meta = record { name = codes "fw"; namespace = codes "prod" };
}

-- A server that keeps the objects of the requests, in two parts by the namespace.
abbrev Server : Type 0
Server = List RestRequest × List Bytes

abbrev sample_rest : RestClient Server
sample_rest = record {
  into = λ r o (asked, others). ((o, none), (r ∷ asked, others));
  into_list = λ r l (asked, others). ((l, none), (r ∷ asked, others));
  error = λ r (asked, others). (none, (r ∷ asked, others));
  watch = λ r (asked, others). (ok (codes "w"), (r ∷ asked, others));
}

abbrev others_of : Server → List Bytes
others_of (asked, others) = others

sample_rest-KeepsApart : KeepsApart others_of (codes "prod") sample_rest
sample_rest-KeepsApart = record {
  into_keeps = λ r o w ns res. refl;
  into_list_keeps = λ r o w ns res. refl;
  error_keeps = λ r w ns res. refl;
  watch_keeps = λ r w ns res. refl;
}

abbrev sample_group : PantheonV1Client Server
sample_group = record { rest_client = some sample_rest }

abbrev sample_calls : List Call
sample_calls =
    Requests.create sample_cnf ∷ Requests.update sample_cnf ∷ Requests.delete (codes "fw") none ∷ []

observe-run_example :
    others_of (
      run
        ((pantheon_v1_interface (some sample_group)).cnf_configurations (codes "prod"))
        sample_calls
        ([], codes "o" ∷ []))
    ≡ codes "o" ∷ []
observe-run_example =
    observe-run others_of sample_rest (codes "prod") sample_rest-KeepsApart sample_group refl
      sample_calls ([], codes "o" ∷ [])

abbrev silent_rest : RestClient (Unit {0})
silent_rest = record {
  into = λ r o w. ((o, none), w);
  into_list = λ r l w. ((l, none), w);
  error = λ r w. (none, w);
  watch = λ r w. (ok (codes "w"), w);
}

abbrev silent_fake : Testing (Unit {0})
silent_fake = record {
  invokes = λ resource ns action o w. ((some o, none), w);
  invokes_watch = λ resource ns action w. (ok (codes "w"), w);
  extract_label = λ opts. none;
}

fake_run_lem_example :
    run
      ((fake_pantheon_v1 (fake_recording silent_fake)).cnf_configurations (codes "prod"))
      sample_calls
      []
    ≡ run
        ((pantheon_v1_interface
            (some (record { rest_client = some (recording silent_rest) }))).cnf_configurations
          (codes "prod"))
        sample_calls
        []
fake_run_lem_example = fake_run_lem silent_rest silent_fake (codes "prod") sample_calls []

abbrev options_of : ℤ → ListOptions
options_of seconds = record {
  label_selector = [];
  field_selector = [];
  watch = false;
  timeout_seconds = some seconds;
}

list_timeout_wraps_example :
    is_negative (list_timeout (options_of (pos 9223372037))) ≡ ltb 9223372036 9223372037
list_timeout_wraps_example =
    list_timeout_wraps (options_of (pos 9223372037)) 9223372037 refl (omega arith)

abbrev pub sample_config : RestConfig Bytes Bytes
sample_config = record {
  qps = codes "5";
  burst = pos 10;
  rate_limiter = none;
  user_agent = [];
  api_path = [];
  group_version = none;
  negotiated_serializer = none;
}

abbrev pub sample_kube : KubeLibrary Bytes Bytes Bytes Bytes
sample_kube = record {
  rate_is_positive = λ q. true;
  new_token_bucket_rate_limiter = λ q burst. codes "bucket";
  default_kubernetes_user_agent = codes "agent";
  without_conversion = codes "plain";
  rest_client_for = λ c. ok c.user_agent;
  new_discovery_client_for_config = λ c. ok (codes "discovery");
  new_discovery_client = λ r. codes "discovery";
}

abbrev sample_clientset : Clientset Bytes Bytes
sample_clientset = record { discovery_client = codes "discovery"; pantheon_v1 = codes "agent" }

new_for_config_lem_example :
    (limiter : Option Bytes) × (sent : RestConfig Bytes Bytes) × (sample_kube.rest_client_for sent
      ≡ ok (codes "agent"))
    × (sent.api_path ≡ codes "/apis")
    × (sent.group_version ≡ some (codes "pantheon.tech", codes "v1"))
    × (sent.rate_limiter ≡ limiter)
    × (sent.qps ≡ codes "5")
    × (sent.burst ≡ pos 10)
    × (sample_kube.new_discovery_client_for_config (record sample_config { rate_limiter = limiter })
        ≡ ok (codes "discovery"))
    × IsLimiterOf sample_kube sample_config limiter
unfolding new_for_config rate_limited new_pantheon_for_config set_config_defaults str_eq
new_for_config_lem_example = new_for_config_lem sample_kube sample_config sample_clientset refl

-- An indexer that has one object.
abbrev sample_indexer : Indexer
sample_indexer = record {
  list_all = λ selector. (cnf_configuration sample_cnf ∷ [], none);
  list_all_by_namespace = λ ns selector. ([], none);
  get_by_key = λ key.
      if str_eq key (codes "prod/fw") then ok (some (cnf_configuration sample_cnf)) else ok none;
}

abbrev sample_lister : CnfConfigurationNamespaceLister
sample_lister = record { indexer = sample_indexer; namespace = codes "prod" }

no_slash_prod : Lacks 47 (codes "prod")
no_slash_prod =
    (λ h. ground arith, (λ h. ground arith, (λ h. ground arith, (λ h. ground arith, tt))))

no_slash_fw : Lacks 47 (codes "fw")
no_slash_fw = (λ h. ground arith, (λ h. ground arith, tt))

found_sample :
    (key : Bytes) (c : CnfConfiguration)
    → sample_indexer.get_by_key key ≡ ok (some (cnf_configuration c))
    → (key ≡ codes "prod/fw") × (sample_cnf ≡ c)
found_sample key c h = ground (arith, str_eq_iff key (codes "prod/fw"))

sample_indexer-IsKeyed : IsKeyed sample_indexer
unfolding meta_namespace_key str_eq
sample_indexer-IsKeyed = record {
  keyed = λ key c h. let (at, same) = found_sample key c h in at ∙ ap meta_namespace_key same;
  slashless = λ key c h.
      subst
        (λ (k : CnfConfiguration). Lacks 47 k.object_meta.namespace × Lacks 47 k.object_meta.name)
        (found_sample key c h).1 (no_slash_prod, no_slash_fw);
}

abbrev no_cluster : Cluster Bytes
no_cluster = record { heap = []; updates = [] }
