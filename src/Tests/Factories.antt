-- ===== src/Tests/Factories.antt =====
-- Witnesses for the factory of informers.
use cnf_nsm.Common.{str_eq, ◌≡◌, refl, [], ◌∷◌, Bytes, codes, ℕ, List}
use cnf_nsm.Common.GoMap.{lookup, insert, erase}
use cnf_nsm.Common.{none, false}
use cnf_nsm.Errors.{ok}
use cnf_nsm.Crd.Client.Interface.{PantheonV1Interface, pantheon_v1_interface}
use cnf_nsm.Crd.Client.{ListOptions}
use cnf_nsm.Informers.Configurations.{CacheLibrary, ListWatch, Factory, tweaked, informer}
use cnf_nsm.Informers.Scoped.{shared, made, asked, shared-list}
use cnf_nsm.Informers.{
  new_filtered_shared_informer_factory, with_namespace, with_tweak_list_options, start_one,
  is_started, SharedInformerFactory, new_shared_informer_factory, informer_for, start,
  new_shared_informer_factory_with_options, apply_options, empty_factory,
}
use cnf_nsm.Informers.Started.{HasDistinctKeys, created, started, running-start}
use cnf_nsm.Informers.Started

abbrev new_informer : Bytes → ℕ → Bytes
new_informer client resync = codes "informer"

abbrev asked_once : SharedInformerFactory Bytes Bytes Bytes
asked_once =
    (informer_for new_informer (codes "CNFConfiguration")
      (new_shared_informer_factory (codes "client") 600)).1

abbrev one_entry : List (Bytes × Bytes)
one_entry = (codes "CNFConfiguration", codes "informer") ∷ []

running-start_example :
    HasDistinctKeys (start one_entry (start one_entry asked_once)).running
    × ((t : Bytes)
        → lookup t (start one_entry (start one_entry asked_once)).running
          ≡ lookup t (start one_entry asked_once).informers)
unfolding new_shared_informer_factory new_shared_informer_factory_with_options apply_options
    empty_factory informer_for lookup insert erase start start_one str_eq is_started
running-start_example =
    running-start (start one_entry asked_once) one_entry
      (started one_entry
        (Started.asked new_informer (codes "CNFConfiguration") (created (codes "client") 600))
        (refl, tt) (λ t. refl))
      (refl, tt) (λ t. refl)

abbrev pub sample_cache : CacheLibrary (Unit {0}) (ListWatch (Unit {0})) Bytes
sample_cache = record {
  new_shared_index_informer = λ lw type resync indexers. lw;
  get_indexer = λ i. record {
    list_all = λ selector. ([], none);
    list_all_by_namespace = λ ns selector. ([], none);
    get_by_key = λ key. ok none;
  };
  new_generic_lister = λ indexer resource. codes "lister";
}

abbrev watching : ListOptions → ListOptions
watching opts = record opts { label_selector = codes "app=cnf" }

abbrev pub any_options : ListOptions
any_options = record {
  label_selector = [];
  field_selector = [];
  watch = false;
  timeout_seconds = none;
}

abbrev no_client : PantheonV1Interface (Unit {0})
no_client = pantheon_v1_interface none

abbrev prod_factory : Factory (Unit {0}) (ListWatch (Unit {0}))
prod_factory = new_filtered_shared_informer_factory no_client 600 (codes "prod") watching

shared-list_example :
    ((shared sample_cache (shared sample_cache prod_factory).1).0.list_func any_options tt
      ≡ (no_client.cnf_configurations (codes "prod")).list (watching any_options) tt)
    × ((shared sample_cache (shared sample_cache prod_factory).1).0.watch_func any_options tt
        ≡ (no_client.cnf_configurations (codes "prod")).watch (watching any_options) tt)
unfolding tweaked new_filtered_shared_informer_factory new_shared_informer_factory_with_options
    apply_options empty_factory with_namespace with_tweak_list_options informer informer_for lookup
shared-list_example =
    shared-list sample_cache (λ lw. lw) (λ lw type resync indexers. refl)
      (shared sample_cache prod_factory).1 any_options tt
      (asked (made no_client 600 (codes "prod") watching))
