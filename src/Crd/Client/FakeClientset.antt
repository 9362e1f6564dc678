-- ===== src/Crd/Client/FakeClientset.antt =====
-- plugins/crdplugin/pkg/client/clientset/versioned/fake/clientset_generated.go: the clientset for tests. The tracker of
-- objects and its reaction to actions are those of the testing library.
use cnf_nsm.Common.{Bool, true, false, List, [], ◌∷◌, Option, none, some, Bytes}
use cnf_nsm.Errors.{Error, Result, ok, err}
use cnf_nsm.Crd.Client.Fake.{Action, Object, Testing, FakeCnfConfigurations, cnf_configurations}

-- The reactor of the library for all actions is `object_reaction`.
pub record TrackerLibrary (W : Type 0) : Type 0 where
  pub add : Object → W → Option Error × W
  pub watch : Bytes × Bytes × Bytes → Bytes → W → Result Bytes
  pub object_reaction : Testing W

-- A reactor for watches: whether it handled the action, what it returns, and the error.
abbrev pub WatchReactor : Type 0 → Type 0
WatchReactor W = Bytes × Bytes × Bytes → Bytes → Action → W → Bool × Option Bytes × Option Error

pub record FakeClientset (W : Type 0) : Type 0 where
  pub fake : Testing W
  pub discovery : Testing W
  pub watch_reactor : WatchReactor W
  pub tracker : W

module _ {W : Type 0} (library : TrackerLibrary W) where
  watched : Result Bytes → Bool × Option Bytes × Option Error
  watched (err x) = (false, none, some x)
  watched (ok w) = (true, some w, none)

  unfoldable pub react_to_watch : WatchReactor W
  unfolding watched
  react_to_watch gvr ns action o = watched (library.watch gvr ns o)

  -- The loop over the objects; an error is a panic.
  unfoldable pub add_all : List Object → W → Result W
  add_all [] o = ok o
  add_all (obj ∷ objects) o =
      let (failed, o') = library.add obj o in
      let rest = add_all objects o' in elim failed [ some x ↦ err x | none ↦ rest ]

  tracking : Result W → Result (FakeClientset W)
  tracking (err x) = err x
  tracking (ok o) = ok (record {
    fake = library.object_reaction;
    discovery = library.object_reaction;
    watch_reactor = react_to_watch;
    tracker = o;
  })

  unfoldable pub new_simple_clientset : List Object → W → Result (FakeClientset W)
  unfolding tracking
  new_simple_clientset objects new_tracker = tracking (add_all objects new_tracker)

-- `Discovery` is over the `Fake` of the clientset.
unfoldable pub fake_discovery : {W : Type 0} → FakeClientset W → Testing W
fake_discovery c = c.discovery

unfoldable pub fake_tracker : {W : Type 0} → FakeClientset W → W
fake_tracker c = c.tracker

-- `CNFConfigurations` of `PantheonV1`
unfoldable pub fake_configurations :
    {W : Type 0} → FakeClientset W → Bytes → FakeCnfConfigurations W
fake_configurations c namespace = cnf_configurations c.fake namespace
