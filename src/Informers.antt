-- ===== src/Informers.antt =====
-- plugins/crdplugin/pkg/client/informers/externalversions/factory.go: the factory of informers that the CRD
-- plugin shares. The methods hold the lock of the factory, so a call is one step. A type of objects goes
-- by its name; `C` is the clients, `T` the functions that tweak the options of a list, and `I` the
-- informers of the Kubernetes library.
pub mod Started
pub mod Configurations
pub mod Scoped
use cnf_nsm.Common.{
  ℕ, Bool, true, false, List, [], ◌∷◌, Option, none, some, Bytes, or_else, if◌then◌else◌,
}
use cnf_nsm.Common.GoMap.{GoMap, lookup, insert}

-- A client and the period of the resync in nanoseconds, to an informer.
abbrev pub NewInformerFunc : Type 0 → Type 0 → Type 0
NewInformerFunc C I = C → ℕ → I

-- `running` is the goroutines that run informers, the latest first.
pub record SharedInformerFactory (C T I : Type 0) : Type 0 where
  pub client : C
  pub namespace : Bytes
  pub tweak_list_options : Option T
  pub default_resync : ℕ
  pub custom_resync : GoMap ℕ
  pub informers : GoMap I
  pub started_informers : GoMap Bool
  pub running : List (Bytes × I)

module _ {C T I : Type 0} where
  -- The loop over the configuration, in some order.
  unfoldable pub with_custom_resync_config :
      List (Bytes × ℕ) → SharedInformerFactory C T I → SharedInformerFactory C T I
  with_custom_resync_config [] f = f
  with_custom_resync_config ((t, v) ∷ config) f =
      with_custom_resync_config config (record f { custom_resync = insert t v f.custom_resync })

  unfoldable pub with_tweak_list_options :
      T → SharedInformerFactory C T I → SharedInformerFactory C T I
  with_tweak_list_options tweak f = record f { tweak_list_options = some tweak }

  unfoldable pub with_namespace : Bytes → SharedInformerFactory C T I → SharedInformerFactory C T I
  with_namespace namespace f = record f { namespace = namespace }

  unfoldable pub apply_options :
      List (SharedInformerFactory C T I → SharedInformerFactory C T I)
      → SharedInformerFactory C T I
      → SharedInformerFactory C T I
  apply_options [] f = f
  apply_options (o ∷ options) f = apply_options options (o f)

  -- The namespace of all namespaces is the empty text.
  unfoldable pub empty_factory : C → ℕ → SharedInformerFactory C T I
  empty_factory client default_resync = record {
    client = client;
    namespace = [];
    tweak_list_options = none;
    default_resync = default_resync;
    custom_resync = [];
    informers = [];
    started_informers = [];
    running = [];
  }

  unfoldable pub new_shared_informer_factory_with_options :
      C
      → ℕ
      → List (SharedInformerFactory C T I → SharedInformerFactory C T I)
      → SharedInformerFactory C T I
  new_shared_informer_factory_with_options client default_resync options =
      apply_options options (empty_factory client default_resync)

  unfoldable pub new_shared_informer_factory : C → ℕ → SharedInformerFactory C T I
  new_shared_informer_factory client default_resync =
      new_shared_informer_factory_with_options client default_resync []

  unfoldable pub new_filtered_shared_informer_factory :
      C → ℕ → Bytes → T → SharedInformerFactory C T I
  new_filtered_shared_informer_factory client default_resync namespace tweak =
      new_shared_informer_factory_with_options client default_resync
        (with_namespace namespace ∷ with_tweak_list_options tweak ∷ [])

  unfoldable pub is_started : SharedInformerFactory C T I → Bytes → Bool
  is_started f t = or_else (lookup t f.started_informers) false

  unfoldable pub start_one : Bytes → I → SharedInformerFactory C T I → SharedInformerFactory C T I
  start_one t informer f = if is_started f t then f else record f {
    running = (t, informer) ∷ f.running;
    started_informers = insert t true f.started_informers;
  }

  -- `order` is the entries of the map of informers, as the iteration meets them.
  unfoldable pub start :
      List (Bytes × I) → SharedInformerFactory C T I → SharedInformerFactory C T I
  start [] f = f
  start ((t, informer) ∷ order) f = start order (start_one t informer f)

  -- The results for the informers that are started, in the order of the iteration.
  unfoldable pub wait_for_cache_sync :
      (I → Bool) → List (Bytes × I) → SharedInformerFactory C T I → GoMap Bool
  wait_for_cache_sync has_synced [] f = []
  wait_for_cache_sync has_synced ((t, informer) ∷ order) f =
      let rest = wait_for_cache_sync has_synced order f in
      if is_started f t then (t, has_synced informer) ∷ rest else rest

  unfoldable pub informer_for :
      NewInformerFunc C I → Bytes → SharedInformerFactory C T I → I × SharedInformerFactory C T I
  informer_for new_func t f = elim (lookup t f.informers) [
    | some informer ↦ (informer, f)
    | none ↦
        let informer = new_func f.client (or_else (lookup t f.custom_resync) f.default_resync) in
        (informer, record f { informers = insert t informer f.informers })
  ]
