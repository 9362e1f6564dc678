-- ===== src/Informers/Scoped.antt =====
-- What the informers of CNF configurations list and watch.
use mathlib.Core.Option.{some-injective}
use cnf_nsm.Common.{
  str_eq, Bool-cases, ◌&&◌, ℕ, ◌≡◌, ◌≢◌, str_eq_ne, refl, ap, sym, ◌∙◌, List, [], ◌∷◌, Option, some,
  Bytes, codes, Option-cases, inl, inr, or_else,
}
use cnf_nsm.Common.GoMap.{lookup, lookup-inserted, lookup-insert}
use cnf_nsm.Errors.{ok}
use cnf_nsm.Crd.Client.{ListOptions}
use cnf_nsm.Crd.Client.Interface.{PantheonV1Interface}
use cnf_nsm.Informers.{
  NewInformerFunc, informer_for, start, start_one, is_started,
  new_shared_informer_factory_with_options, apply_options, empty_factory,
  new_filtered_shared_informer_factory, new_shared_informer_factory, with_namespace,
  with_tweak_list_options,
}
use cnf_nsm.Informers.Configurations.{
  ListWatch, CacheLibrary, TweakListOptions, tweaked, configuration_type, Factory, list_watch,
  new_filtered_cnf_configuration_informer, default_informer, informer, pantheon, v1,
  cnf_configurations, for_resource,
}

module _ {W I G : Type 0} (cache : CacheLibrary W I G) where
  -- The informer that the factory gives for CNF configurations.
  abbrev pub shared : Factory W I → I × Factory W I
  shared f = informer cache (cnf_configurations (v1 (pantheon f))) f

  -- The calls of a factory for a namespace and a tweak, or for all namespaces. Its informer of CNF
  -- configurations is only asked for through its own group; `InformerFor` may make informers of other types
  -- by any functions.
  pub data Used : Factory W I → Type 0 where
    made :
        (client : PantheonV1Interface W) (resync : ℕ) (namespace : Bytes)
        (tweak : ListOptions → ListOptions)
        → Used (new_filtered_shared_informer_factory client resync namespace tweak)
    made_for_all :
        (client : PantheonV1Interface W) (resync : ℕ)
        → Used (new_shared_informer_factory client resync)
    asked : {f : Factory W I} → Used f → Used (shared f).1
    asked_for :
        {f : Factory W I} (resource : Bytes × Bytes × Bytes)
        → Used f
        → Used (for_resource cache resource f).1
    asked_for_other :
        {f : Factory W I} (new_func : NewInformerFunc (PantheonV1Interface W) I) (t : Bytes)
        → Used f
        → t ≢ configuration_type
        → Used (informer_for new_func t f).1
    started : {f : Factory W I} (order : List (Bytes × I)) → Used f → Used (start order f)

  -- What a factory was made with, and its informer.
  abbrev kept : Factory W I → PantheonV1Interface W × Bytes × TweakListOptions × Option I
  kept f = (f.client, f.namespace, f.tweak_list_options, lookup configuration_type f.informers)

  kept-start_one : (t : Bytes) (i : I) (f : Factory W I) → kept (start_one t i f) ≡ kept f
  unfolding start_one
  kept-start_one t i f = elim (Bool-cases (is_started f t)) [
    | inl runs ↦ rw runs refl
    | inr idle ↦ rw idle refl
  ]

  kept-start : (order : List (Bytes × I)) (f : Factory W I) → kept (start order f) ≡ kept f
  unfolding start
  kept-start [] f = refl
  kept-start ((t, i) ∷ order) f = kept-start order (start_one t i f) ∙ kept-start_one t i f

  kept-informer_for :
      (new_func : NewInformerFunc (PantheonV1Interface W) I) (t : Bytes) (f : Factory W I)
      → t ≢ configuration_type
      → kept (informer_for new_func t f).1 ≡ kept f
  unfolding informer_for
  kept-informer_for new_func t f other = elim (Option-cases (lookup t f.informers)) [
    | inr (i, found) ↦ rw (found, informer_for) refl
    | inl absent ↦
        rw (absent, informer_for)
          (ap (λ (found : Option I). (f.client, f.namespace, f.tweak_list_options, found))
            (lookup-insert t configuration_type _ f.informers
              ∙ rw (str_eq_ne t configuration_type other) refl))
  ]

  module _ (list_watch_of : I → ListWatch W)
      (reads : (lw : ListWatch W) (type : Bytes) (resync : ℕ) (indexers : List Bytes)
        → list_watch_of (cache.new_shared_index_informer lw type resync indexers) ≡ lw) where
    Scopes : PantheonV1Interface W × Bytes × TweakListOptions × Option I → Type 0
    Scopes (client, namespace, tweak, found) =
        (i : I) → found ≡ some i → list_watch_of i ≡ list_watch client namespace tweak

    fresh-Scopes :
        (f : Factory W I) (resync : ℕ)
        → list_watch_of
            (default_informer cache (cnf_configurations (v1 (pantheon f))) f.client resync)
          ≡ list_watch f.client f.namespace f.tweak_list_options
    unfolding default_informer new_filtered_cnf_configuration_informer cnf_configurations v1
        pantheon
    fresh-Scopes f resync = reads _ _ _ _

    shared-Scopes :
        (f : Factory W I)
        → Scopes (kept f)
        → Scopes (kept (shared f).1)
          × (list_watch_of (shared f).0 ≡ list_watch f.client f.namespace f.tweak_list_options)
    unfolding Scopes informer informer_for
    shared-Scopes f s = elim (Option-cases (lookup configuration_type f.informers)) [
      | inr (i, found) ↦ rw (found, informer_for) (s, s i found)
      | inl absent ↦
          let resync = or_else (lookup configuration_type f.custom_resync) f.default_resync in
          let fresh =
            default_informer cache (cnf_configurations (v1 (pantheon f))) f.client resync in
          let stored = lookup-inserted configuration_type fresh f.informers in
          rw (absent, informer_for)
            (
              λ i h. ap list_watch_of (some-injective _ _ (sym h ∙ stored)) ∙ fresh-Scopes f resync,
              fresh-Scopes f resync,
            )
    ]

    for_resource-Scopes :
        (resource : Bytes × Bytes × Bytes) (f : Factory W I)
        → Scopes (kept f)
        → Scopes (kept (for_resource cache resource f).1)
    unfolding for_resource
    for_resource-Scopes (group, version, resource) f s =
        let known =
          str_eq group (codes "pantheon.tech")
          && str_eq version (codes "v1")
          && str_eq resource (codes "cnfconfigurations") in
        elim (Bool-cases known) [
          | inl served ↦ rw served ((shared-Scopes f s).0)
          | inr unknown ↦ rw unknown s
        ]

    Used-Scopes : {f : Factory W I} → Used f → Scopes (kept f)
    Used-Scopes (made client resync namespace tweak) =
        unfold Scopes new_filtered_shared_informer_factory new_shared_informer_factory_with_options
          apply_options empty_factory lookup with_namespace with_tweak_list_options in
        λ i h. cc
    Used-Scopes (made_for_all client resync) =
        unfold Scopes new_shared_informer_factory new_shared_informer_factory_with_options
          apply_options empty_factory lookup in
        λ i h. cc
    Used-Scopes (asked {f} u) = (shared-Scopes f (Used-Scopes u)).0
    Used-Scopes (asked_for {f} resource u) = for_resource-Scopes resource f (Used-Scopes u)
    Used-Scopes (asked_for_other {f} new_func t u other) =
        rw (kept-informer_for new_func t f other) (Used-Scopes u)
    Used-Scopes (started {f} order u) = rw (kept-start order f) (Used-Scopes u)

    -- A factory of informers for a namespace, with a tweak of the options, or for all namespaces, may
    -- have been asked before for its informer of CNF configurations, also by the resource, for informers
    -- of other types by any functions through `InformerFor`, and may have been started any number of
    -- times; but no other function, and no group of another namespace, was used to make an informer of
    -- CNF configurations. Then the informer of CNF configurations that it gives lists and watches what
    -- the client of the factory lists and watches there, with the options tweaked. The library is
    -- documented to list and watch by the functions that an informer is made with.
    pub shared-list :
        (f : Factory W I) (options : ListOptions) (w : W)
        → Used f
        → ((list_watch_of (shared f).0).list_func options w
            ≡ (f.client.cnf_configurations f.namespace).list
                (tweaked f.tweak_list_options options)
                w)
          × ((list_watch_of (shared f).0).watch_func options w
              ≡ (f.client.cnf_configurations f.namespace).watch
                  (tweaked f.tweak_list_options options)
                  w)
    unfolding list_watch
    shared-list f options w u = rw ((shared-Scopes f (Used-Scopes u)).1) (refl, refl)

  shared_found :
      (f : Factory W I) → lookup configuration_type (shared f).1.informers ≡ some (shared f).0
  unfolding informer informer_for
  shared_found f = elim (Option-cases (lookup configuration_type f.informers)) [
    | inr (i, found) ↦ rw (found, informer_for) found
    | inl absent ↦ rw (absent, informer_for) (lookup-inserted configuration_type _ f.informers)
  ]

  shared_again :
      (f : Factory W I) (i : I) → lookup configuration_type f.informers ≡ some i → shared f ≡ (i, f)
  unfolding informer informer_for
  shared_again f i found = rw (found, informer_for) refl

  -- Asking the factory again, also by the resource, gives the informer that it gave before, and
  -- changes nothing.
  pub for_resource-informer :
      (f : Factory W I)
      → (shared (shared f).1 ≡ ((shared f).0, (shared f).1))
        × (for_resource cache
              (codes "pantheon.tech", codes "v1", codes "cnfconfigurations")
              (shared f).1
            ≡ (
              ok (record {
                informer = (shared f).0;
                resource = (codes "pantheon.tech", codes "cnfconfigurations");
              }),
              (shared f).1,
            ))
  unfolding for_resource str_eq
  for_resource-informer f =
      let again = shared_again (shared f).1 (shared f).0 (shared_found f) in (again, rw again refl)

  -- Asking for the informer leaves what the factory was made with.
  pub scope-shared :
      (f : Factory W I)
      → ((shared f).1.client ≡ f.client)
        × ((shared f).1.namespace ≡ f.namespace)
        × ((shared f).1.tweak_list_options ≡ f.tweak_list_options)
  unfolding informer informer_for
  scope-shared f = elim (Option-cases (lookup configuration_type f.informers)) [
    | inr (i, found) ↦ rw (found, informer_for) (refl, refl, refl)
    | inl absent ↦ rw (absent, informer_for) (refl, refl, refl)
  ]
