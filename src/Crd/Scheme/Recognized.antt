-- ===== src/Crd/Scheme/Recognized.antt =====
-- What the schemes recognize once the packages are initialized.
use cnf_nsm.Common.{
  false, ◌≡◌, refl, ◌∙◌, Bool, true, ◌||◌, List, [], ◌∷◌, Option, none, some, Bytes, codes, str_eq,
}
use cnf_nsm.Errors.{Error, ok}
use cnf_nsm.Crd.Client.Config.{RestConfig, KubeLibrary, set_config_defaults, scheme_group_version}
use cnf_nsm.Crd.Client.Fake.{cnf_configurations_kind}
use cnf_nsm.Crd.Scheme.{SchemeLibrary, add_known_types, add_to_scheme, must, init, fake_init}

abbrev pub one_of : List Bytes → Bytes → Bool
one_of [] k = false
one_of (kind ∷ kinds) k = str_eq kind k || one_of kinds k

-- What the library documents. A scheme recognizes the kinds that were added to a version of a group, and
-- goes on recognizing what it recognized. The functions of a builder are run one after the other, up to
-- the first that fails.
pub record IsDocumented {S : Type 0} (library : SchemeLibrary S)
    (recognizes : S → Bytes × Bytes × Bytes → Bool) : Type 0 where
  pub known :
      (group version : Bytes) (kinds : List Bytes) (kind : Bytes) (s : S)
      → one_of kinds kind ≡ true
      → recognizes (library.add_known_types (group, version) kinds s) (group, version, kind) ≡ true
  pub kept :
      (gv : Bytes × Bytes) (gvk : Bytes × Bytes × Bytes) (s : S)
      → recognizes s gvk ≡ true
      → recognizes (library.add_to_group_version gv s) gvk ≡ true
  pub none_left : (s : S) → library.add_to_scheme [] s ≡ (none, s)
  pub succeeds :
      (f : S → Option Error × S) (fs : List (S → Option Error × S)) (s s' : S)
      → f s ≡ (none, s')
      → library.add_to_scheme (f ∷ fs) s ≡ library.add_to_scheme fs s'

module _ {S : Type 0} (library : SchemeLibrary S) (recognizes : S → Bytes × Bytes × Bytes → Bool)
    (documented : IsDocumented library recognizes) where
  added : (s : S) → add_to_scheme library s ≡ (none, (add_known_types library s).1)
  unfolding add_to_scheme add_known_types
  added s = documented.succeeds (add_known_types library) [] s _ refl ∙ documented.none_left _

  kind_known :
      (kind : Bytes) (s : S)
      → one_of (codes "CNFConfiguration" ∷ codes "CNFConfigurationList" ∷ []) kind ≡ true
      → recognizes
          (add_known_types library s).1
          (scheme_group_version.0, scheme_group_version.1, kind)
        ≡ true
  unfolding add_known_types
  kind_known kind s h = documented.kept scheme_group_version _ _ (documented.known _ _ _ kind s h)

  initialized :
      (s : S)
      → library.add_to_scheme (add_to_scheme library ∷ []) s ≡ (none, (add_known_types library s).1)
  initialized s =
      documented.succeeds (add_to_scheme library) [] s _ (added s) ∙ documented.none_left _

  -- Neither the clientset nor the fake one panics when its package is initialized. The scheme of both
  -- recognizes the resource and its list in the group and version that the group's client is configured
  -- for, and the kind that the fake client lists by.
  pub init-recognizes :
      {Q L R D : Type 0} (kube : KubeLibrary Q L R D) (config : RestConfig Q L)
      → (s : S) × (init library ≡ ok s)
        × (fake_init library ≡ ok s)
        × (group version : Bytes) × ((set_config_defaults kube config).group_version
            ≡ some (group, version))
        × (recognizes s (group, version, codes "CNFConfiguration") ≡ true)
        × (recognizes s (group, version, codes "CNFConfigurationList") ≡ true)
        × (recognizes s cnf_configurations_kind ≡ true)
  unfolding init fake_init set_config_defaults must str_eq
  init-recognizes kube config =
      let s = library.add_to_group_version (codes "", codes "v1") library.new_scheme in
      (
        (add_known_types library s).1,
        rw (initialized s) refl,
        rw (initialized s) refl,
        codes "pantheon.tech",
        codes "v1",
        refl,
        kind_known (codes "CNFConfiguration") s refl,
        kind_known (codes "CNFConfigurationList") s refl,
        kind_known (codes "CNFConfiguration") s refl,
      )
