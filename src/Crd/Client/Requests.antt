-- ===== src/Crd/Client/Requests.antt =====
-- The calls of the clients of the CRD, one after the other, and what they leave as it was.
use cnf_nsm.Common.{◌≡◌, refl, ◌∙◌, List, [], ◌∷◌, Option, some, Bytes}
use cnf_nsm.Crd.DeepCopy.{CnfConfiguration, ListedConfigurations}
use cnf_nsm.Crd.Client
use cnf_nsm.Crd.Client.{
  Verb, gets, posts, puts, deletes, patches, ListOptions, RestRequest, RestClient,
  CnfConfigurations, resource_name, namespaced, through, PantheonV1Client, cnf_configurations,
}
use cnf_nsm.Crd.Client.Interface.{
  CnfConfigurationInterface, pantheon_v1_interface, cnf_configuration_interface,
}

-- One call of a client.
pub data Call : Type 0 where
  get : Bytes → Bytes → Call
  list watch : ListOptions → Call
  create update : CnfConfiguration → Call
  delete : Bytes → Option Bytes → Call
  delete_collection : Option Bytes → ListOptions → Call
  patch : Bytes → Bytes → Bytes → List Bytes → Call

module _ {W : Type 0} where
  -- What a call leaves behind, apart from its result.
  unfoldable pub step : CnfConfigurationInterface W → Call → W → W
  step c (get name options) w = (c.get name options w).1
  step c (list opts) w = (c.list opts w).1
  step c (watch opts) w = (c.watch opts w).1
  step c (create o) w = (c.create o w).1
  step c (update o) w = (c.update o w).1
  step c (delete name options) w = (c.delete name options w).1
  step c (delete_collection options opts) w = (c.delete_collection options opts w).1
  step c (patch name type content subresources) w = (c.patch name type content subresources w).1

  unfoldable pub run : CnfConfigurationInterface W → List Call → W → W
  run c [] w = w
  run c (call ∷ calls) w = run c calls (step c call w)

-- Requests for the CNF configurations of one namespace do not change what is observed.
pub record KeepsApart {W V : Type 0} (observe : W → V) (ns : Bytes) (rest : RestClient W)
    : Type 0 where
  pub into_keeps :
      (r : RestRequest) (o : CnfConfiguration) (w : W)
      → r.namespace ≡ ns
      → r.resource ≡ resource_name
      → observe (rest.into r o w).1 ≡ observe w
  pub into_list_keeps :
      (r : RestRequest) (l : ListedConfigurations) (w : W)
      → r.namespace ≡ ns
      → r.resource ≡ resource_name
      → observe (rest.into_list r l w).1 ≡ observe w
  pub error_keeps :
      (r : RestRequest) (w : W)
      → r.namespace ≡ ns
      → r.resource ≡ resource_name
      → observe (rest.error r w).1 ≡ observe w
  pub watch_keeps :
      (r : RestRequest) (w : W)
      → r.namespace ≡ ns
      → r.resource ≡ resource_name
      → observe (rest.watch r w).1 ≡ observe w

module _ {W V : Type 0} (observe : W → V) (rest : RestClient W) (ns : Bytes)
    (apart : KeepsApart observe ns rest) (c : PantheonV1Client W)
    (held : c.rest_client ≡ some rest) where
  observe-step :
      (call : Call) (w : W)
      → observe (step ((pantheon_v1_interface (some c)).cnf_configurations ns) call w) ≡ observe w
  unfolding step pantheon_v1_interface cnf_configuration_interface through namespaced Client.get
      Client.list Client.watch Client.create Client.update Client.delete Client.delete_collection
      Client.patch Client.cnf_configurations Client.new_cnf_configurations Client.rest_client_of
  observe-step (get name options) w = rw held (apart.into_keeps _ _ w refl refl)
  observe-step (list opts) w = rw held (apart.into_list_keeps _ _ w refl refl)
  observe-step (watch opts) w = rw held (apart.watch_keeps _ w refl refl)
  observe-step (create o) w = rw held (apart.into_keeps _ _ w refl refl)
  observe-step (update o) w = rw held (apart.into_keeps _ _ w refl refl)
  observe-step (delete name options) w = rw held (apart.error_keeps _ w refl refl)
  observe-step (delete_collection options opts) w = rw held (apart.error_keeps _ w refl refl)
  observe-step (patch name type content subresources) w = rw held (apart.into_keeps _ _ w refl refl)

  -- Whatever is called on the client for a namespace, what no request for the CNF configurations of
  -- that namespace changes at the API server stays as it was.
  pub observe-run :
      (calls : List Call) (w : W)
      → observe (run ((pantheon_v1_interface (some c)).cnf_configurations ns) calls w) ≡ observe w
  unfolding run
  observe-run [] w = refl
  observe-run (call ∷ calls) w = observe-run calls _ ∙ observe-step call w
