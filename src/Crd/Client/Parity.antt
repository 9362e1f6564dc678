-- ===== src/Crd/Client/Parity.antt =====
-- The requests of the client of the CRD beside the actions of the fake client.
use cnf_nsm.Crd.Client.Requests.{
  Call, get, list, watch, create, update, delete, delete_collection, patch, step, run,
}
use cnf_nsm.Common.{◌≡◌, refl, List, [], ◌∷◌, Option, none, some, Bytes}
use cnf_nsm.Crd.Client
use cnf_nsm.Crd.Client.{
  Verb, gets, posts, puts, deletes, patches, ListOptions, RestRequest, RestClient,
  CnfConfigurations, resource_name, namespaced, through, PantheonV1Client, cnf_configurations,
}
use cnf_nsm.Crd.Client.Interface.{
  PantheonV1Interface, pantheon_v1_interface, fake_pantheon_v1, cnf_configuration_interface,
  fake_configuration_interface,
}
use cnf_nsm.Crd.Client.Fake
use cnf_nsm.Crd.Client.Fake.{
  Action, get_action, list_action, watch_action, create_action, update_action, delete_action,
  delete_collection_action, patch_action, Testing, FakeCnfConfigurations,
}

-- What a request or an action is about.
pub record Address : Type 0 where
  pub verb : Verb
  pub namespace : Bytes
  pub resource : Bytes
  pub name : Option Bytes
  pub sub_resources : List Bytes

abbrev pub address_of : RestRequest → Address
address_of r = record {
  verb = r.verb;
  namespace = r.namespace;
  resource = r.resource;
  name = r.name;
  sub_resources = r.sub_resources;
}

abbrev target : Action → Verb × Option Bytes × List Bytes
target (get_action name) = (gets, some name, [])
target (list_action kind opts) = (gets, none, [])
target (watch_action opts) = (gets, none, [])
target (create_action o) = (posts, none, [])
target (update_action o) = (puts, some o.object_meta.name, [])
target (delete_action name) = (deletes, some name, [])
target (delete_collection_action opts) = (deletes, none, [])
target (patch_action name type content subresources) = (patches type, some name, subresources)

abbrev pub action_address : Bytes × Bytes × Bytes → Bytes → Action → Address
action_address (group, version, resource) ns action =
    let (verb, name, sub_resources) = target action in
    record {
      verb = verb;
      namespace = ns;
      resource = resource;
      name = name;
      sub_resources = sub_resources;
    }

-- Clients that answer in some way, and keep what they were asked, the latest first.
abbrev pub recording : RestClient (Unit {0}) → RestClient (List Address)
recording rest = record {
  into = λ r o asked. ((rest.into r o tt).0, address_of r ∷ asked);
  into_list = λ r l asked. ((rest.into_list r l tt).0, address_of r ∷ asked);
  error = λ r asked. ((rest.error r tt).0, address_of r ∷ asked);
  watch = λ r asked. ((rest.watch r tt).0, address_of r ∷ asked);
}

abbrev pub fake_recording : Testing (Unit {0}) → Testing (List Address)
fake_recording fake = record {
  invokes = λ resource ns action o asked.
      ((fake.invokes resource ns action o tt).0, action_address resource ns action ∷ asked);
  invokes_watch = λ resource ns action asked.
      ((fake.invokes_watch resource ns action tt).0, action_address resource ns action ∷ asked);
  extract_label = fake.extract_label;
}

module _ (rest : RestClient (Unit {0})) (fake : Testing (Unit {0})) (ns : Bytes) where
  abbrev client : PantheonV1Interface (List Address)
  client = pantheon_v1_interface (some (record { rest_client = some (recording rest) }))

  abbrev fake_client : PantheonV1Interface (List Address)
  fake_client = fake_pantheon_v1 (fake_recording fake)

  step-fake_step :
      (call : Call) (asked : List Address)
      → step (fake_client.cnf_configurations ns) call asked
        ≡ step (client.cnf_configurations ns) call asked
  unfolding step pantheon_v1_interface cnf_configuration_interface fake_pantheon_v1
      fake_configuration_interface Client.cnf_configurations Client.new_cnf_configurations
      Client.rest_client_of Fake.cnf_configurations through namespaced Client.get Client.list
      Client.watch Client.create Client.update Client.delete Client.delete_collection Client.patch
      Fake.get Fake.list Fake.watch Fake.create Fake.update Fake.delete Fake.delete_collection
      Fake.patch
  step-fake_step (get name options) asked = refl
  step-fake_step (list opts) asked = refl
  step-fake_step (watch opts) asked = refl
  step-fake_step (create o) asked = refl
  step-fake_step (update o) asked = refl
  step-fake_step (delete name options) asked = refl
  step-fake_step (delete_collection options opts) asked = refl
  step-fake_step (patch name type content subresources) asked = refl

  -- The fake client for a namespace asks for what the client for it asks for: over any calls, whatever
  -- is answered, the actions of the one and the requests of the other have, one after the other, the
  -- same verbs, namespaces, resources, names and subresources.
  pub fake_run_lem :
      (calls : List Call) (asked : List Address)
      → run ((fake_pantheon_v1 (fake_recording fake)).cnf_configurations ns) calls asked
        ≡ run
            ((pantheon_v1_interface
                (some (record { rest_client = some (recording rest) }))).cnf_configurations
              ns)
            calls
            asked
  unfolding run
  fake_run_lem [] asked = refl
  fake_run_lem (call ∷ calls) asked =
      rw (step-fake_step call asked)
        (fake_run_lem calls (step (client.cnf_configurations ns) call asked))
