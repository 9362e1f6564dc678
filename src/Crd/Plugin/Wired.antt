-- ===== src/Crd/Plugin/Wired.antt =====
-- What a plugin has, and what its controller is made of.
use cnf_nsm.Common.{
  Bool, ◌≡◌, ◌≢◌, refl, ◌∙◌, true, [], Option, some, none, Bytes, Option-cases, inl, inr, ℕ, suc,
}
use cnf_nsm.Errors.{Error, Result-cases}
use cnf_nsm.Crd.Client.Config.{new_for_config}
use cnf_nsm.Informers.{
  new_shared_informer_factory, new_shared_informer_factory_with_options, apply_options,
  empty_factory,
}
use cnf_nsm.Informers.Configurations.{CacheLibrary, Factory}
use cnf_nsm.Informers.Scoped.{shared, Used, made_for_all, asked, scope-shared}
use cnf_nsm.Crd.Controller.{Clients, v1_client, CrdController, new_controller}
use cnf_nsm.Crd.Plugin.{
  InitEnv, Plugin, init, initialize_crds, with_factory, on_etcd_connect, close, k8s_resync_interval,
}

module _ {Q L W D A I G : Type 0} (cache : CacheLibrary W I G) (validation : Bytes)
    (env : InitEnv Q L W D A) (p : Plugin W D A I) where
  -- The life of a plugin: `Init` of a plugin without clients, then connections of etcd, which call the
  -- callbacks that are registered, and `Close`.
  pub data Life : Plugin W D A I → Type 0 where
    initialized : Life (init env p).1
    connects :
        (controller_init : CrdController W D A I → Option Error) {q : Plugin W D A I}
        → Life q
        → q.callbacks ≢ 0
        → Life (on_etcd_connect cache validation controller_init q).1
    closes : {q : Plugin W D A I} → Life q → Life (close q).1

  -- The factory is of a client, for all namespaces.
  pub record IsFactoryOf (c : Clients W D) (f : Factory W I) : Type 0 where
    pub used : Used cache f
    pub client : f.client ≡ v1_client c
    pub namespace : f.namespace ≡ []
    pub tweak : f.tweak_list_options ≡ none

  -- The controller was made with the clients, and the informer of such a factory.
  pub record IsMadeOf (c : Clients W D) (a : A) (controller : CrdController W D A I) : Type 0 where
    pub factory : Factory W I
    pub its : IsFactoryOf c factory
    pub etcd : Bool
    pub made :
        controller ≡ new_controller validation etcd (some c) (some a) (shared cache factory).0

  -- What holds of a plugin whose `Init` returned no error: it has its clients and the factory, and its
  -- controller, if there is one, was made of them.
  pub record IsReady (q : Plugin W D A I) : Type 0 where
    pub c : Clients W D
    pub a : A
    pub f : Factory W I
    pub crd_client : q.crd_client ≡ some c
    pub apiclientset : q.apiclientset ≡ some a
    pub shared_factory : q.shared_factory ≡ some f
    pub its : IsFactoryOf c f

  pub record IsRunning (q : Plugin W D A I) : Type 0 where
    pub ready : IsReady q
    pub controller : CrdController W D A I
    pub cnf_config_controller : q.cnf_config_controller ≡ some controller
    pub made : IsMadeOf ready.c ready.a controller

  pub record IsWired (result : Option Error) (q : Plugin W D A I) : Type 0 where
    pub called : q.callbacks ≢ 0 → (result ≡ none) × IsReady q
    pub started : q.running ≢ 0 → (q.callbacks ≢ 0) × IsRunning q

  new_factory-IsFactoryOf :
      (c : Clients W D)
      → IsFactoryOf c (new_shared_informer_factory (v1_client c) k8s_resync_interval)
  unfolding new_shared_informer_factory new_shared_informer_factory_with_options apply_options
      empty_factory
  new_factory-IsFactoryOf c = record {
    used = made_for_all _ _;
    client = refl;
    namespace = refl;
    tweak = refl;
  }

  shared-IsFactoryOf :
      (c : Clients W D) (f : Factory W I) → IsFactoryOf c f → IsFactoryOf c (shared cache f).1
  shared-IsFactoryOf c f its =
      let (client, namespace, tweak) = scope-shared cache f in
      record {
        used = asked its.used;
        client = client ∙ its.client;
        namespace = namespace ∙ its.namespace;
        tweak = tweak ∙ its.tweak;
      }

  idle-IsWired :
      (result : Option Error) (q : Plugin W D A I)
      → q.callbacks ≡ 0
      → q.running ≡ 0
      → IsWired result q
  idle-IsWired result q none_called none_runs = record {
    called = λ h. absurd (h none_called);
    started = λ h. absurd (h none_runs);
  }

  pub init-IsWired : p.callbacks ≡ 0 → p.running ≡ 0 → IsWired (init env p).0 (init env p).1
  unfolding init
  init-IsWired none_called none_runs =
      elim (Result-cases (env.build_config_from_flags (env.config_name p.kube_config))) [
        | inl (e, h) ↦ rw (h, init) (idle-IsWired _ _ none_called none_runs)
        | inr (config, h) ↦ elim (Result-cases (new_for_config env.kube config)) [
          | inl (e, k) ↦ rw (h, init) (rw k (idle-IsWired _ _ none_called none_runs))
          | inr (c, k) ↦ elim (Result-cases (env.new_api_client config)) [
            | inl (e, l) ↦ rw (h, init) (rw k (rw l (idle-IsWired _ _ none_called none_runs)))
            | inr (a, l) ↦
                rw (h, init)
                  (rw k (
                    rw l (record {
                      called = λ h. (
                        refl,
                        record {
                          c = c;
                          a = a;
                          f = new_shared_informer_factory (v1_client c) k8s_resync_interval;
                          crd_client = refl;
                          apiclientset = refl;
                          shared_factory = refl;
                          its = new_factory-IsFactoryOf c;
                        },
                      );
                      started = λ h. absurd (h none_runs);
                    })))
          ]
        ]
      ]

  -- The plugin behind a connection of etcd, with the factory and the controller that it then has.
  connected :
      (controller_init : CrdController W D A I → Option Error) (q : Plugin W D A I)
      (f : Factory W I) (runs : ℕ)
      → Plugin W D A I
  connected controller_init q f runs = record q {
    shared_factory = some (shared cache f).1;
    cnf_config_controller =
        some (new_controller validation q.etcd q.crd_client q.apiclientset (shared cache f).0);
    running = runs;
  }

  connected-IsWired :
      (result : Option Error) (controller_init : CrdController W D A I → Option Error)
      (q : Plugin W D A I) (runs : ℕ) (r : IsReady q)
      → q.callbacks ≢ 0
      → result ≡ none
      → IsWired result (connected controller_init q r.f runs)
  unfolding connected
  connected-IsWired result controller_init q runs r called ended =
      let now : IsReady (connected controller_init q r.f runs) = record {
        c = r.c;
        a = r.a;
        f = (shared cache r.f).1;
        crd_client = r.crd_client;
        apiclientset = r.apiclientset;
        shared_factory = refl;
        its = shared-IsFactoryOf r.c r.f r.its;
      } in
      record {
        called = λ h. (ended, now);
        started = λ h. (
          called,
          record {
            ready = now;
            controller =
                new_controller validation q.etcd q.crd_client q.apiclientset (shared cache r.f).0;
            cnf_config_controller = refl;
            made = record {
              factory = r.f;
              its = r.its;
              etcd = q.etcd;
              made = rw (r.crd_client, r.apiclientset) refl;
            };
          },
        );
      }

  pub connects-IsWired :
      (result : Option Error) (controller_init : CrdController W D A I → Option Error)
      (q : Plugin W D A I) (r : IsReady q)
      → q.callbacks ≢ 0
      → result ≡ none
      → IsWired result (on_etcd_connect cache validation controller_init q).1
  unfolding on_etcd_connect initialize_crds connected
  connects-IsWired result controller_init q r called ended =
      let controller =
        new_controller validation q.etcd q.crd_client q.apiclientset (shared cache r.f).0 in
      elim (Option-cases (controller_init controller)) [
        | inr (e, failed) ↦
            rw (r.shared_factory, with_factory)
              (rw failed (connected-IsWired result controller_init q q.running r called ended))
        | inl inits ↦
            rw (r.shared_factory, with_factory)
              (rw inits (connected-IsWired result controller_init q (suc q.running) r called ended))
      ]

  closed : Plugin W D A I → Plugin W D A I
  closed q = record q { ctx = some true }

  closed-IsReady : {q : Plugin W D A I} → IsReady q → IsReady (closed q)
  unfolding closed
  closed-IsReady r = record {
    c = r.c;
    a = r.a;
    f = r.f;
    crd_client = r.crd_client;
    apiclientset = r.apiclientset;
    shared_factory = r.shared_factory;
    its = r.its;
  }

  closed-IsWired :
      (result : Option Error) {q : Plugin W D A I} → IsWired result q → IsWired result (closed q)
  unfolding closed closed-IsReady
  closed-IsWired result w = record {
    called = λ h. let (ended, r) = w.called h in (ended, closed-IsReady r);
    started = λ h.
        let (called, runs) = w.started h in
        (
          called,
          record {
            ready = closed-IsReady runs.ready;
            controller = runs.controller;
            cnf_config_controller = runs.cnf_config_controller;
            made = runs.made;
          },
        );
  }

  pub Life-IsWired :
      {q : Plugin W D A I} → p.callbacks ≡ 0 → p.running ≡ 0 → Life q → IsWired (init env p).0 q
  unfolding close closed
  Life-IsWired none_called none_runs initialized = init-IsWired none_called none_runs
  Life-IsWired none_called none_runs (connects controller_init {q} life called) =
      let (ended, ready) = (Life-IsWired none_called none_runs life).called called in
      connects-IsWired _ controller_init q ready called ended
  Life-IsWired none_called none_runs (closes {q} life) =
      let w = Life-IsWired none_called none_runs life in
      elim (Option-cases q.ctx) [
        | inl unset ↦ rw (unset, close) w
        | inr (cancelled, set) ↦ rw (set, close) (closed-IsWired _ w)
      ]
