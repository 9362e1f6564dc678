-- ===== src/Tests/Schemes.antt =====
-- Witnesses for the schemes of Kubernetes.
use cnf_nsm.Common.{
  ◌≡◌, refl, ap, Bool, true, false, ◌&&◌, ◌||◌, List, [], ◌∷◌, Option, none, some, Bytes, codes,
  str_eq, str_eq_refl,
}
use cnf_nsm.Errors.{Error, ok}
use cnf_nsm.Crd.Client.Config.{set_config_defaults}
use cnf_nsm.Crd.Client.Fake.{cnf_configurations_kind}
use cnf_nsm.Crd.Scheme.{SchemeLibrary, init, fake_init}
use cnf_nsm.Crd.Scheme.Recognized.{one_of, IsDocumented, init-recognizes}
use cnf_nsm.Tests.KubeClients.{sample_kube, sample_config}

-- A scheme as the test of what it recognizes.
abbrev Known : Type 0
Known = Bytes × Bytes × Bytes → Bool

run_builder : List (Known → Option Error × Known) → Known → Option Error × Known
run_builder [] s = (none, s)
run_builder (f ∷ fs) s =
    let rest = run_builder fs (f s).1 in elim (f s).0 [ some e ↦ (some e, (f s).1) | none ↦ rest ]

abbrev sample_schemes : SchemeLibrary Known
unfolding run_builder
sample_schemes = record {
  new_scheme = λ gvk. false;
  add_known_types =
      λ gv kinds s gvk. str_eq gv.0 gvk.0 && str_eq gv.1 gvk.1 && one_of kinds gvk.2 || s gvk;
  add_to_group_version = λ gv s. s;
  add_to_scheme = run_builder;
}

sample_schemes-IsDocumented : IsDocumented sample_schemes (λ s gvk. s gvk)
unfolding run_builder
sample_schemes-IsDocumented = record {
  known = λ group version kinds kind s h. rw (str_eq_refl group, str_eq_refl version, h) refl;
  kept = λ gv gvk s h. h;
  none_left = λ s. refl;
  succeeds = λ f fs s s' h.
      ap
        (λ (p : Option Error × Known).
          let rest = run_builder fs p.1 in
          elim p.0 as (λ _. Option Error × Known) [ some e ↦ (some e, p.1) | none ↦ rest ])
        h;
}

init-recognizes_example :
    (s : Known) × (init sample_schemes ≡ ok s)
    × (fake_init sample_schemes ≡ ok s)
    × (group version : Bytes) × ((set_config_defaults sample_kube sample_config).group_version
        ≡ some (group, version))
    × (s (group, version, codes "CNFConfiguration") ≡ true)
    × (s (group, version, codes "CNFConfigurationList") ≡ true)
    × (s cnf_configurations_kind ≡ true)
init-recognizes_example =
    init-recognizes sample_schemes (λ s gvk. s gvk) sample_schemes-IsDocumented sample_kube
      sample_config
