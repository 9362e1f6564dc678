-- ===== src/Crd/Scheme.antt =====
-- The types of the CRD in a scheme of Kubernetes: plugins/crdplugin/pkg/apis/pantheontech/v1/register.go,
-- and the schemes of the clientsets, plugins/crdplugin/pkg/client/clientset/versioned/scheme/register.go and
-- fake/register.go beside it. Schemes `S`, and what is done to them, are those of the Kubernetes library.
pub mod Recognized
use cnf_nsm.Common.{List, [], ◌∷◌, Option, none, some, Bytes, codes}
use cnf_nsm.Errors.{Error, Result, ok, err}
use cnf_nsm.Crd.Client.Config.{scheme_group_version}

-- A builder of the library is a list of functions, which `add_to_scheme` runs on a scheme.
pub record SchemeLibrary (S : Type 0) : Type 0 where
  pub new_scheme : S
  pub add_known_types : Bytes × Bytes → List Bytes → S → S
  pub add_to_group_version : Bytes × Bytes → S → S
  pub add_to_scheme : List (S → Option Error × S) → S → Option Error × S

module _ {S : Type 0} (library : SchemeLibrary S) where
  unfoldable pub add_known_types : S → Option Error × S
  add_known_types scheme =
      let scheme' =
        library.add_known_types scheme_group_version
          (codes "CNFConfiguration" ∷ codes "CNFConfigurationList" ∷ []) scheme in
      (none, library.add_to_group_version scheme_group_version scheme')

  -- `AddToScheme` of the builder of the API.
  unfoldable pub add_to_scheme : S → Option Error × S
  add_to_scheme = library.add_to_scheme (add_known_types ∷ [])

  -- `utilruntime.Must`: an error is a panic.
  unfoldable pub must : Option Error × S → Result S
  must (none, scheme) = ok scheme
  must (some e, scheme) = err e

  -- `init` of the package of the scheme.
  unfoldable pub init : Result S
  init =
      let scheme = library.add_to_group_version (codes "", codes "v1") library.new_scheme in
      must (library.add_to_scheme (add_to_scheme ∷ []) scheme)

  -- `init` of the package of the fake clientset, which has a scheme of its own.
  unfoldable pub fake_init : Result S
  fake_init =
      let scheme = library.add_to_group_version (codes "", codes "v1") library.new_scheme in
      must (library.add_to_scheme (add_to_scheme ∷ []) scheme)
