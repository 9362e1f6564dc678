-- ===== src/Informers/Started.antt =====
-- Which informers run.
use cnf_nsm.Common.{
  ℕ, ◌≡◌, refl, ◌∙◌, sym, ap, Bool, true, false, List, [], ◌∷◌, Option, none, some, Bytes, arith,
  or_else, str_eq_iff, str_eq_refl, Option-cases, inl, inr,
}
use cnf_nsm.Common.GoMap.{GoMap, lookup, lookup-insert}
use cnf_nsm.Informers.{
  NewInformerFunc, SharedInformerFactory, apply_options, empty_factory, new_shared_informer_factory,
  is_started, new_shared_informer_factory_with_options, start_one, start, informer_for,
}

-- Each key stands once.
abbrev pub HasDistinctKeys : {V : Type 0} → List (Bytes × V) → Type 0
HasDistinctKeys [] = Unit
HasDistinctKeys ((k, v) ∷ m) = (lookup k m ≡ none) × HasDistinctKeys m

abbrev is_bound : {V : Type 0} → Option V → Bool
is_bound none = false
is_bound (some _) = true

-- The entries of a list stand in a map.
abbrev pub IsWithin : {V : Type 0} → List (Bytes × V) → GoMap V → Type 0
IsWithin {V} order m = (k : Bytes) (v : V) → lookup k order ≡ some v → lookup k m ≡ some v

pub record IsSound {C T I : Type 0} (f : SharedInformerFactory C T I) : Type 0 where
  pub once : HasDistinctKeys f.running
  pub known : IsWithin f.running f.informers
  pub flags : (t : Bytes) → is_started f t ≡ is_bound (lookup t f.running)

module _ {C T I : Type 0} where
  start_one-IsSound :
      (t : Bytes) (i : I) (f : SharedInformerFactory C T I)
      → lookup t f.informers ≡ some i
      → IsSound f
      → IsSound (start_one t i f)
        × ((start_one t i f).informers ≡ f.informers)
        × (lookup t (start_one t i f).running ≡ some i)
        × IsWithin f.running (start_one t i f).running
  unfolding start_one is_started lookup
  start_one-IsSound t i f found s = elim (Option-cases (lookup t f.running)) [
    | inr (j, running) ↦
        let started : is_started f t ≡ true = ground (arith, s.flags t) in
        rw (started, start_one) (s, refl, running ∙ sym (s.known t j running) ∙ found, λ k v h. h)
    | inl absent ↦
        let fresh : is_started f t ≡ false = ground (arith, s.flags t) in
        rw (fresh, start_one)
          (
            record {
              once = (absent, s.once);
              known = λ k v h. ground (arith, s.known k v, str_eq_iff t k);
              flags = λ k. ground (arith, s.flags k, lookup-insert t k true f.started_informers);
            },
            refl,
            ground (arith, str_eq_refl t),
            λ k v h. ground (arith, str_eq_iff t k),
          )
  ]

  start-IsSound :
      (order : List (Bytes × I)) (f : SharedInformerFactory C T I)
      → HasDistinctKeys order
      → IsWithin order f.informers
      → IsSound f
      → IsSound (start order f)
        × ((start order f).informers ≡ f.informers)
        × IsWithin order (start order f).running
        × IsWithin f.running (start order f).running
  unfolding start lookup
  start-IsSound [] f distinct within s = (s, refl, λ k v h. cc, λ k v h. h)
  start-IsSound ((t, i) ∷ order) f (absent, distinct) within s =
      let (sound, same, runs, kept) =
        start_one-IsSound t i f (within t i (ground (arith, str_eq_refl t))) s in
      let rest : IsWithin order (start_one t i f).informers =
        λ k v h. ground (arith, same, within k v, str_eq_iff t k) in
      let (sound', same', run, kept') = start-IsSound order (start_one t i f) distinct rest sound in
      (
        sound',
        same' ∙ same,
        λ k v h. ground (arith, run k v, kept' k v, str_eq_iff t k),
        λ k v h. kept' k v (kept k v h),
      )

  informer_for-IsSound :
      (new_func : NewInformerFunc C I) (t : Bytes) (f : SharedInformerFactory C T I)
      → IsSound f
      → IsSound (informer_for new_func t f).1
  unfolding informer_for is_started
  informer_for-IsSound new_func t f s = elim (Option-cases (lookup t f.informers)) [
    | inr (i, found) ↦ rw (found, informer_for) s
    | inl absent ↦
        rw (absent, informer_for)
          (record {
            once = s.once;
            known = λ k v h. ground (
              arith,
              s.known k v h,
              lookup-insert t k
                  (new_func f.client (or_else (lookup t f.custom_resync) f.default_resync))
                  f.informers,
              str_eq_iff t k,
            );
            flags = s.flags;
          })
  ]

  -- The calls of a factory; an iteration meets each entry of the map of informers once.
  pub data FactoryReach : SharedInformerFactory C T I → Type 0 where
    created :
        (client : C) (default_resync : ℕ)
        → FactoryReach (new_shared_informer_factory client default_resync)
    asked :
        {f : SharedInformerFactory C T I} (new_func : NewInformerFunc C I) (t : Bytes)
        → FactoryReach f
        → FactoryReach (informer_for new_func t f).1
    started :
        {f : SharedInformerFactory C T I} (order : List (Bytes × I))
        → FactoryReach f
        → HasDistinctKeys order
        → ((t : Bytes) → lookup t order ≡ lookup t f.informers)
        → FactoryReach (start order f)

  FactoryReach-IsSound : {f : SharedInformerFactory C T I} → FactoryReach f → IsSound f
  unfolding new_shared_informer_factory new_shared_informer_factory_with_options apply_options
      empty_factory is_started lookup
  FactoryReach-IsSound (created client default_resync) = record {
    once = tt;
    known = λ k v h. h;
    flags = λ t. refl;
  }
  FactoryReach-IsSound (asked {f} new_func t r) =
      informer_for-IsSound new_func t f (FactoryReach-IsSound r)
  FactoryReach-IsSound (started {f} order r distinct same) =
      let (sound, _, _, _) =
        start-IsSound order f distinct (λ k v h. sym (same k) ∙ h) (FactoryReach-IsSound r) in
      sound

  -- After any calls of a factory, `Start` has left exactly its informers running, each in one
  -- goroutine, however often it was started before, and in whatever order the iteration meets them.
  pub running-start :
      (f : SharedInformerFactory C T I) (order : List (Bytes × I))
      → FactoryReach f
      → HasDistinctKeys order
      → ((t : Bytes) → lookup t order ≡ lookup t f.informers)
      → HasDistinctKeys (start order f).running
        × ((t : Bytes) → lookup t (start order f).running ≡ lookup t f.informers)
  running-start f order r distinct same =
      let (sound, kept, run, _) =
        start-IsSound order f distinct (λ k v h. sym (same k) ∙ h) (FactoryReach-IsSound r) in
      (
        sound.once,
        λ t. elim (Option-cases (lookup t (start order f).running)) [
          | inr (i, runs) ↦ runs ∙ sym (ap (lookup t) (sym kept) ∙ sound.known t i runs)
          | inl idle ↦ elim (Option-cases (lookup t f.informers)) [
            | inl absent ↦ idle ∙ sym absent
            | inr (i, found) ↦ absurd (ground (arith, run t i (same t ∙ found)))
          ]
        ],
      )
