-- ===== src/Crd/Client/Interface.antt =====
-- The interfaces of the clients of the CRD, CNFConfigurationInterface and PantheonV1Interface of
-- plugins/crdplugin/pkg/client/clientset/versioned/typed/pantheontech/v1, with the client and the fake
-- client that are behind them.
use cnf_nsm.Common.{List, Option, none, some, Bytes}
use cnf_nsm.Errors.{Error, Result, ok, err}
use cnf_nsm.Crd.DeepCopy.{CnfConfiguration, ListedConfigurations}
use cnf_nsm.Crd.Client
use cnf_nsm.Crd.Client.{
  ListOptions, RestClient, PantheonV1Client, CnfConfigurations, rest_client_of,
}
use cnf_nsm.Crd.Client.Fake
use cnf_nsm.Crd.Client.Fake.{Testing, FakeCnfConfigurations}

-- What a method answers with a pointer and an error; the pointer may be nil. A panic is an error.
abbrev pub Answer : Type 0 → Type 0
Answer A = Result (Option A × Option Error)

pub record CnfConfigurationInterface (W : Type 0) : Type 0 where
  pub create : CnfConfiguration → W → Answer CnfConfiguration × W
  pub update : CnfConfiguration → W → Answer CnfConfiguration × W
  pub delete : Bytes → Option Bytes → W → Result (Option Error) × W
  pub delete_collection : Option Bytes → ListOptions → W → Result (Option Error) × W
  pub get : Bytes → Bytes → W → Answer CnfConfiguration × W
  pub list : ListOptions → W → Answer ListedConfigurations × W
  pub watch : ListOptions → W → Result (Result Bytes) × W
  pub patch : Bytes → Bytes → Bytes → List Bytes → W → Answer CnfConfiguration × W

-- `CNFConfigurationsGetter`
abbrev pub CnfConfigurationsGetter : Type 0 → Type 0
CnfConfigurationsGetter W = Bytes → CnfConfigurationInterface W

pub record PantheonV1Interface (W : Type 0) : Type 0 where
  pub rest_client : Option (RestClient W)
  pub cnf_configurations : CnfConfigurationsGetter W

-- The client's results point to a new object.
abbrev pub pointed : {A : Type 0} → Result (A × Option Error) → Answer A
pointed (ok (result, failed)) = ok (some result, failed)
pointed (err x) = err x

module _ {W : Type 0} where
  abbrev pub answering : {A B : Type 0} → (A → B) → A × W → B × W
  answering f (a, w) = (f a, w)

  unfoldable pub cnf_configuration_interface : CnfConfigurations W → CnfConfigurationInterface W
  cnf_configuration_interface c = record {
    create = λ o w. answering pointed (Client.create c o w);
    update = λ o w. answering pointed (Client.update c o w);
    delete = λ name options w. Client.delete c name options w;
    delete_collection = λ options opts w. Client.delete_collection c options opts w;
    get = λ name options w. answering pointed (Client.get c name options w);
    list = λ opts w. answering pointed (Client.list c opts w);
    watch = λ opts w. Client.watch c opts w;
    patch = λ name type content subresources w.
        answering pointed (Client.patch c name type content subresources w);
  }

  -- The client of the group, which may be a nil pointer.
  unfoldable pub pantheon_v1_interface : Option (PantheonV1Client W) → PantheonV1Interface W
  pantheon_v1_interface c = record {
    rest_client = rest_client_of c;
    cnf_configurations =
        λ namespace. cnf_configuration_interface (Client.cnf_configurations c namespace);
  }

  -- Nothing of the fake client panics but a failed assertion of its own.
  unfoldable pub fake_configuration_interface :
      FakeCnfConfigurations W → CnfConfigurationInterface W
  fake_configuration_interface c = record {
    create = λ o w. Fake.create c o w;
    update = λ o w. Fake.update c o w;
    delete = λ name options w. answering ok (Fake.delete c name w);
    delete_collection = λ options opts w. answering ok (Fake.delete_collection c opts w);
    get = λ name options w. Fake.get c name w;
    list = λ opts w. Fake.list c opts w;
    watch = λ opts w. answering ok (Fake.watch c opts w);
    patch = λ name type content subresources w. Fake.patch c name type content subresources w;
  }

  -- The fake client of the group is its `Fake`. Its REST client is a nil pointer.
  unfoldable pub fake_pantheon_v1 : Testing W → PantheonV1Interface W
  fake_pantheon_v1 fake = record {
    rest_client = none;
    cnf_configurations =
        λ namespace. fake_configuration_interface (Fake.cnf_configurations fake namespace);
  }
