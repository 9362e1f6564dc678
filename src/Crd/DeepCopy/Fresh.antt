-- ===== src/Crd/DeepCopy/Fresh.antt =====
-- What a deep copy shares with the original.
use cnf_nsm.Common.{
  Bytes, ℕ, ◌≤◌, ◌<◌, ◌≡◌, refl, ◌∙◌, List, [], ◌∷◌, ◌++◌, Option, none, some, arith, length, map,
  append_assoc, append-nil, length-append, All, ap, sym,
}
use cnf_nsm.Common.Index.{get_or, get_or-append, get_or-append_left, set_at, get_or-set_at_other}
use cnf_nsm.Crd.DeepCopy.{
  CnfConfiguration, CnfConfigurationList, Heap, Heaps, copy_items, deep_copy_spec, deep_copy,
  deep_copy_items, deep_copy_list,
}

-- An address, if there is one, below a bound, and from a bound on.
abbrev pub IsBelow : ℕ → Option ℕ → Type 0
IsBelow n none = Unit
IsBelow n (some a) = a < n

abbrev pub IsFrom : ℕ → Option ℕ → Type 0
IsFrom n none = Unit
IsFrom n (some a) = n ≤ a

IsFrom-le : (m n : ℕ) (o : Option ℕ) → m ≤ n → IsFrom n o → IsFrom m o
IsFrom-le m n none le h = tt
IsFrom-le m n (some a) le h = omega arith

IsBelow-le : (m n : ℕ) (o : Option ℕ) → m ≤ n → IsBelow m o → IsBelow n o
IsBelow-le m n none le h = tt
IsBelow-le m n (some a) le h = omega arith

All-IsFrom-le :
    (m n : ℕ) (cs : List CnfConfiguration)
    → m ≤ n
    → All (λ c. IsFrom n c.spec.config_items) cs
    → All (λ c. IsFrom m c.spec.config_items) cs
All-IsFrom-le m n [] le hs = tt
All-IsFrom-le m n (c ∷ cs) le (h, hs) =
    (IsFrom-le m n c.spec.config_items le h, All-IsFrom-le m n cs le hs)

-- The resources of a list; a nil has none.
abbrev pub resources : Heap CnfConfiguration → Option ℕ → List CnfConfiguration
resources lists none = []
resources lists (some a) = get_or lists a []

module _ {Item : Type 0} where
  -- The heap after the array behind a slice was overwritten.
  abbrev pub overwrite : Heap Item → Option ℕ → List Item → Heap Item
  overwrite heap none items = heap
  overwrite heap (some a) items = set_at heap a items

module _ {Item : Type 0} where
  -- The array behind a slice; nothing for nil.
  abbrev pub items_at : Heap Item → Option ℕ → Option (List Item)
  items_at heap none = none
  items_at heap (some a) = some (get_or heap a [])

  pub items_at-append :
      (heap more : Heap Item) (o : Option ℕ)
      → IsBelow (length heap) o
      → items_at (heap ++ more) o ≡ items_at heap o
  items_at-append heap more none h = refl
  items_at-append heap more (some a) h = ap some (get_or-append_left heap more [] a h)

  pub items_at-overwrite :
      (heap : Heap Item) (n : ℕ) (o p : Option ℕ) (items : List Item)
      → IsFrom n o
      → IsBelow n p
      → items_at (overwrite heap o items) p ≡ items_at heap p
  items_at-overwrite heap n none p items f b = refl
  items_at-overwrite heap n (some a) none items f b = refl
  items_at-overwrite heap n (some a) (some c) items f b =
      ap some (get_or-set_at_other heap a c items [] (λ e. omega arith))

  -- The copy of a slice: where it is, what it holds, and that it only adds to the heap.
  pub copied_items :
      (o : Option ℕ) (heap : Heap Item)
      → (more : Heap Item) × ((copy_items o heap).1 ≡ heap ++ more)
        × IsFrom (length heap) (copy_items o heap).0
        × (items_at (copy_items o heap).1 (copy_items o heap).0 ≡ items_at heap o)
        × IsBelow (length (copy_items o heap).1) (copy_items o heap).0
  unfolding copy_items
  copied_items none heap = ([], sym (append-nil heap), tt, refl, tt)
  copied_items (some a) heap = (
    get_or heap a [] ∷ [],
    refl,
    omega arith,
    ap some (get_or-append heap (get_or heap a [] ∷ []) [] (length heap) 0 (omega arith)),
    omega (arith, length-append heap (get_or heap a [] ∷ [])),
  )

  -- All that a resource holds, with the array in place of its address.
  abbrev pub contents : Heap Item → CnfConfiguration → CnfConfiguration × Option (List Item)
  contents heap c =
      (record c { spec = record c.spec { config_items = none } }, items_at heap c.spec.config_items)

  All-IsBelow-append :
      (heap more : Heap Item) (cs : List CnfConfiguration)
      → All (λ c. IsBelow (length heap) c.spec.config_items) cs
      → All (λ c. IsBelow (length (heap ++ more)) c.spec.config_items) cs
  All-IsBelow-append heap more [] hs = tt
  All-IsBelow-append heap more (c ∷ cs) (h, hs) = (
    IsBelow-le (length heap) _ c.spec.config_items (omega (arith, length-append heap more)) h,
    All-IsBelow-append heap more cs hs,
  )

  contents-append :
      (heap more : Heap Item) (cs : List CnfConfiguration)
      → All (λ c. IsBelow (length heap) c.spec.config_items) cs
      → map (contents (heap ++ more)) cs ≡ map (contents heap) cs
  contents-append heap more [] hs = refl
  contents-append heap more (c ∷ cs) (h, hs) =
      rw (items_at-append heap more c.spec.config_items h) (rw (contents-append heap more cs hs))

  AreCopied : List CnfConfiguration → Heap Item → Type 0
  AreCopied cs heap =
      (more : Heap Item) × ((deep_copy_items cs heap).1 ≡ heap ++ more)
      × All (λ c. IsFrom (length heap) c.spec.config_items) (deep_copy_items cs heap).0
      × (map (contents (deep_copy_items cs heap).1) (deep_copy_items cs heap).0
          ≡ map (contents heap) cs)

  copied :
      (cs : List CnfConfiguration) (heap : Heap Item)
      → All (λ c. IsBelow (length heap) c.spec.config_items) cs
      → AreCopied cs heap
  unfolding AreCopied deep_copy_items deep_copy deep_copy_spec
  copied [] heap h = ([], sym (append-nil heap), tt, refl)
  copied (c ∷ cs) heap (h, hs) =
      let o = c.spec.config_items in
      let (more, grown, from, same, below) = copied_items o heap in
      let heap' = (copy_items o heap).1 in
      let (more', grown', from', same') =
        copied cs heap' (rw grown (All-IsBelow-append heap more cs hs)) in
      let longer : length heap ≤ length heap' = rw grown (omega (arith, length-append heap more)) in
      let held : items_at (deep_copy_items cs heap').1 (copy_items o heap).0 ≡ items_at heap o =
        rw grown' (items_at-append heap' more' (copy_items o heap).0 below) ∙ same in
      let others : map (contents heap') cs ≡ map (contents heap) cs =
        rw grown (contents-append heap more cs hs) in
      (
        more ++ more',
        grown' ∙ ap (λ (k : Heap Item). k ++ more') grown ∙ append_assoc heap more more',
        (from, All-IsFrom-le (length heap) (length heap') _ longer from'),
        rw held (ap (◌∷◌ (contents heap c)) (same' ∙ others)),
      )

  contents-overwrite :
      (heap : Heap Item) (n : ℕ) (o : Option ℕ) (items : List Item) (cs : List CnfConfiguration)
      → IsFrom n o
      → All (λ c. IsBelow n c.spec.config_items) cs
      → map (contents (overwrite heap o items)) cs ≡ map (contents heap) cs
  contents-overwrite heap n o items [] f hs = refl
  contents-overwrite heap n o items (c ∷ cs) f (h, hs) =
      rw (items_at-overwrite heap n o c.spec.config_items items f h)
        (rw (contents-overwrite heap n o items cs f hs))

  -- Writing through any of the copies leaves the originals as they are.
  apart :
      (heap more : Heap Item) (cs copies : List CnfConfiguration)
      → All (λ c. IsBelow (length heap) c.spec.config_items) cs
      → All (λ c. IsFrom (length heap) c.spec.config_items) copies
      → All
          (λ c'.
            (items : List Item)
            → map (contents (overwrite (heap ++ more) c'.spec.config_items items)) cs
              ≡ map (contents heap) cs)
          copies
  apart heap more cs [] hs fs = tt
  apart heap more cs (c ∷ copies) hs (f, fs) = (
    λ items.
        contents-overwrite (heap ++ more) (length heap) c.spec.config_items items cs f hs
        ∙ contents-append heap more cs hs,
    apart heap more cs copies hs fs,
  )

  -- What a list holds, and a copy of it that has arrays of its own: whatever is written to the array of
  -- the copy, or to that of one of the copied resources, the originals hold what they held.
  pub record IsDeepCopy (h : Heaps Item) (l : CnfConfigurationList)
      (r : CnfConfigurationList × Heaps Item) : Type 0 where
    pub type_meta : r.0.type_meta ≡ l.type_meta
    pub list_meta : r.0.list_meta ≡ l.list_meta
    pub same :
        map (contents r.1.arrays) (resources r.1.lists r.0.items)
        ≡ map (contents h.arrays) (resources h.lists l.items)
    pub list_apart :
        (cs : List CnfConfiguration)
        → resources (overwrite r.1.lists r.0.items cs) l.items ≡ resources h.lists l.items
    pub apart :
        All
          (λ c'.
            (items : List Item)
            → map
                (contents (overwrite r.1.arrays c'.spec.config_items items))
                (resources r.1.lists l.items)
              ≡ map (contents h.arrays) (resources h.lists l.items))
          (resources r.1.lists r.0.items)

  copied_list :
      (type_meta list_meta : Bytes) (items : Option ℕ) (h : Heaps Item)
      → IsBelow (length h.lists) items
      → All (λ c. IsBelow (length h.arrays) c.spec.config_items) (resources h.lists items)
      → IsDeepCopy h
          (record { type_meta = type_meta; list_meta = list_meta; items = items })
          (deep_copy_list
            (record { type_meta = type_meta; list_meta = list_meta; items = items })
            h)
  unfolding deep_copy_list AreCopied
  copied_list type_meta list_meta none h below valid = record {
    type_meta = refl;
    list_meta = refl;
    same = refl;
    list_apart = λ cs. refl;
    apart = tt;
  }
  copied_list type_meta list_meta (some a) h below valid =
      let cs = get_or h.lists a [] in
      let copies = (deep_copy_items cs h.arrays).0 in
      let (more, grown, from, same) = copied cs h.arrays valid in
      let made : get_or (h.lists ++ copies ∷ []) (length h.lists) [] ≡ copies =
        get_or-append h.lists (copies ∷ []) [] (length h.lists) 0 (omega arith) in
      let kept : get_or (h.lists ++ copies ∷ []) a [] ≡ cs =
        get_or-append_left h.lists (copies ∷ []) [] a below in
      record {
        type_meta = refl;
        list_meta = refl;
        same = rw made same;
        list_apart = λ written.
            get_or-set_at_other (h.lists ++ copies ∷ []) (length h.lists) a written []
              (λ e. omega arith)
            ∙ kept;
        apart = rw (made, kept, grown) (apart h.arrays more cs copies valid from);
      }

  -- A deep copy of a list of resources, whose slices are nil or in the heap, holds what the list held,
  -- with arrays of its own, that of the resources and one for each resource: whatever is then written to
  -- one of these, the originals still hold what they held.
  pub deep_copy_list_lem :
      (l : CnfConfigurationList) (h : Heaps Item)
      → IsBelow (length h.lists) l.items
      → All (λ c. IsBelow (length h.arrays) c.spec.config_items) (resources h.lists l.items)
      → IsDeepCopy h l (deep_copy_list l h)
  deep_copy_list_lem l h below valid = copied_list l.type_meta l.list_meta l.items h below valid
