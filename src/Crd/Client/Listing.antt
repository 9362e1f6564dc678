-- ===== src/Crd/Client/Listing.antt =====
-- What the lister returns.
use cnf_nsm.Common.{
  false, true, Bool-cases, inr, inl, ◌≡◌, ◌≢◌, ◌↔◌, refl, sym, ◌∙◌, ap, List, [], ◌∷◌, ◌++◌, map,
  append_assoc, append-nil, Option, none, some, Bytes, codes, arith, str_eq, if◌then◌else◌,
}
use cnf_nsm.Errors.{Error, Result-cases, ok}
use cnf_nsm.GoLib.Strings.Laws.{Lacks}
use cnf_nsm.Crd.DeepCopy.{CnfConfiguration}
use cnf_nsm.Crd.Handler.{CrdObject, cnf_configuration, other}
use cnf_nsm.Crd.Client.Lister.{
  Indexer, CnfConfigurationNamespaceLister, asserted, append_all, list_namespace, get, listed,
  present,
}

-- The key that the Kubernetes library documents for an object of a cache.
unfoldable pub meta_namespace_key : CnfConfiguration → Bytes
meta_namespace_key c =
    if str_eq c.object_meta.namespace []
    then c.object_meta.name
    else c.object_meta.namespace ++ codes "/" ++ c.object_meta.name

key_nowhere :
    (c : CnfConfiguration)
    → str_eq c.object_meta.namespace [] ≡ true
    → meta_namespace_key c ≡ c.object_meta.name
unfolding meta_namespace_key
key_nowhere c h = ground arith

key_somewhere :
    (c : CnfConfiguration)
    → str_eq c.object_meta.namespace [] ≡ false
    → meta_namespace_key c ≡ c.object_meta.namespace ++ 47 ∷ c.object_meta.name
unfolding meta_namespace_key
key_somewhere c h =
    rw (h, meta_namespace_key) (append_assoc c.object_meta.namespace (codes "/") c.object_meta.name)

append_all_configurations :
    (cs ret : List CnfConfiguration) → append_all (map cnf_configuration cs) ret ≡ ok (ret ++ cs)
unfolding append_all asserted
append_all_configurations [] ret = ap ok (sym (append-nil ret))
append_all_configurations (c ∷ cs) ret =
    append_all_configurations cs (ret ++ c ∷ []) ∙ ap ok (append_assoc ret (c ∷ []) cs)

append_all_sound :
    (ms : List CrdObject) (ret out : List CnfConfiguration)
    → append_all ms ret ≡ ok out
    → (cs : List CnfConfiguration) × (ms ≡ map cnf_configuration cs) × (out ≡ ret ++ cs)
unfolding append_all asserted
append_all_sound [] ret out h = ([], refl, ground (arith, append-nil ret))
append_all_sound (cnf_configuration c ∷ ms) ret out h =
    let (cs, same, appended) = append_all_sound ms (ret ++ c ∷ []) out h in
    (
      c ∷ cs,
      ap (λ (l : List CrdObject). cnf_configuration c ∷ l) same,
      appended ∙ append_assoc ret (c ∷ []) cs,
    )
append_all_sound (other t ∷ ms) ret out h = cc

listed_sound :
    (ms : List CrdObject) (f failed : Option Error) (cs : List CnfConfiguration)
    → listed (ms, f) ≡ ok (cs, failed)
    → ◌≡◌ {A = List CrdObject × Option Error} (ms, f) (map cnf_configuration cs, failed)
unfolding listed
listed_sound ms f failed cs h = elim (Result-cases (append_all ms [])) [
  | inl (x, panicked) ↦ absurd (ground arith)
  | inr (ret, found) ↦
      let (cs', same, appended) = append_all_sound ms [] ret found in
      let returned : (ret ≡ cs) × (f ≡ failed) = ground arith in
      rw (same, sym appended, returned.0, returned.1) refl
]

-- The lister of a namespace returns resources with an error exactly if these are the objects, in their
-- order, that the indexer has for the namespace and the selector, with that error. If an object is of
-- another type, no resources are returned.
pub list_namespace_iff :
    (s : CnfConfigurationNamespaceLister) (selector : Bytes) (cs : List CnfConfiguration)
    (failed : Option Error)
    → (list_namespace s selector ≡ ok (cs, failed))
      ↔ (s.indexer.list_all_by_namespace s.namespace selector ≡ (map cnf_configuration cs, failed))
unfolding list_namespace listed
list_namespace_iff s selector cs failed =
    (λ h. listed_sound _ _ failed cs h, λ h. rw h (rw (append_all_configurations cs []) refl))

same_parts :
    (p q n m : Bytes) → Lacks 47 p → Lacks 47 q → p ++ 47 ∷ n ≡ q ++ 47 ∷ m → (p ≡ q) × (n ≡ m)
same_parts [] [] n m hp hq h = ground arith
same_parts [] (b ∷ q) n m hp hq h = ground arith
same_parts (a ∷ p) [] n m hp hq h = ground arith
same_parts (a ∷ p) (b ∷ q) n m hp hq h = ground (arith, same_parts p q n m hp.1 hq.1)

-- An indexer that keeps an object under its key.
pub record IsKeyed (indexer : Indexer) : Type 0 where
  pub keyed :
      (key : Bytes) (c : CnfConfiguration)
      → indexer.get_by_key key ≡ ok (some (cnf_configuration c))
      → key ≡ meta_namespace_key c
  pub slashless :
      (key : Bytes) (c : CnfConfiguration)
      → indexer.get_by_key key ≡ ok (some (cnf_configuration c))
      → Lacks 47 c.object_meta.namespace × Lacks 47 c.object_meta.name

no_slash : (p n m : Bytes) → Lacks 47 m → p ++ 47 ∷ n ≢ m
no_slash [] n [] h e = cc
no_slash [] n (b ∷ m) h e = ground arith
no_slash (a ∷ p) n [] h e = cc
no_slash (a ∷ p) n (b ∷ m) h e = no_slash p n m h.1 (ground arith)

-- A resource that the lister of a namespace gets by a name has that name and that namespace. The
-- indexer keeps its objects under their keys, and there is no slash in the namespace asked for, nor in
-- the names and namespaces of the objects.
pub get_lem :
    (s : CnfConfigurationNamespaceLister) (name : Bytes) (c : CnfConfiguration)
    → IsKeyed s.indexer
    → Lacks 47 s.namespace
    → get s name ≡ ok c
    → (c.object_meta.namespace ≡ s.namespace) × (c.object_meta.name ≡ name)
unfolding get present asserted
get_lem s name c k lacks got =
    elim (Result-cases (s.indexer.get_by_key (s.namespace ++ codes "/" ++ name))) [
      | inl (x, failed) ↦ absurd (ground arith)
      | inr (none, found) ↦ absurd (ground arith)
      | inr (some (other t), found) ↦ absurd (ground arith)
      | inr (some (cnf_configuration c'), found) ↦
          let same : c' ≡ c = ground arith in
          let own = sym (append_assoc s.namespace (codes "/") name) ∙ k.keyed _ c' found in
          let (no_ns, no_name) = k.slashless _ c' found in
          elim (Bool-cases (str_eq c'.object_meta.namespace [])) [
            | inl nowhere ↦ absurd (
                no_slash s.namespace name c'.object_meta.name no_name
                  (own ∙ key_nowhere c' nowhere))
            | inr somewhere ↦
                let parts =
                  same_parts s.namespace c'.object_meta.namespace name c'.object_meta.name lacks
                    no_ns (own ∙ key_somewhere c' somewhere) in
                rw (sym same) (sym parts.0, sym parts.1)
          ]
    ]
