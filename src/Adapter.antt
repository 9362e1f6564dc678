-- ===== src/Adapter.antt =====
-- plugins/nsmplugin/descriptor/adapter: descriptors over typed values behind the untyped interface of
-- the KV scheduler. The two generated files are one text with two types, so their common part is here,
-- over the casts; the casts and the two adapters are in the children.
pub mod Values
pub mod Client
pub mod Endpoint
pub mod Laws
pub mod Scheduling
pub mod Models
use mathlib.Core.Option
use cnf_nsm.Common.{Bool, true, false, List, [], ◌∷◌, Option, none, some, Bytes}
use cnf_nsm.Errors.{Error, Result, ok, err}
use cnf_nsm.Adapter.Values.{Message, Metadata}

-- A key with its value and its metadata; `Origin` tells where the value comes from.
pub record KvWithMetadata (V M : Type 0) : Type 0 where
  pub key : Bytes
  pub value : V
  pub metadata : M
  pub origin : Bytes

-- A descriptor over values `V` with metadata `M`. A function that is nil is `none`; what acts passes
-- the state `S` of the descriptor on.
pub record Descriptor (V M S : Type 0) : Type 0 where
  pub name : Bytes
  pub key_selector : Bytes → Bool
  pub value_type_name : Bytes
  pub key_label : Bytes → Bytes
  pub nb_key_prefix : Bytes
  pub with_metadata : Bool
  pub is_retriable_failure : Option (Error → Bool)
  pub retrieve_dependencies : List Bytes
  pub value_comparator : Option (Bytes → V → V → Bool)
  pub validate : Option (Bytes → V → Option Error)
  pub create : Option (Bytes → V → S → Result M × S)
  pub delete : Option (Bytes → V → M → S → Option Error × S)
  pub update : Option (Bytes → V → V → M → S → Result M × S)
  pub update_with_recreate : Option (Bytes → V → V → M → Bool)
  pub retrieve : Option (List (KvWithMetadata V M) → S → Result (List (KvWithMetadata V M)) × S)
  pub derived_values : Option (Bytes → V → List (Bytes × Message))
  pub dependencies : Option (Bytes → V → List Bytes)

-- The casts of an adapter, with the metadata of a typed descriptor as the scheduler sees it.
pub record Casts (V M : Type 0) : Type 0 where
  pub cast_value : Bytes → Message → Result V
  pub cast_metadata : Bytes → Metadata → Result M
  pub to_message : V → Message
  pub to_metadata : M → Metadata

module _ {V M : Type 0} (casts : Casts V M) where
  open casts use {cast_value, cast_metadata, to_message, to_metadata}

  wrap : {S : Type 0} → Result M × S → Result Metadata × S
  wrap (ok m, s) = (ok (to_metadata m), s)
  wrap (err e, s) = (err e, s)

  unfoldable pub adapt_value_comparator : (Bytes → V → V → Bool) → Bytes → Message → Message → Bool
  adapt_value_comparator f key old_value new_value = elim (cast_value key old_value) [
    | err _ ↦ false
    | ok old ↦ elim (cast_value key new_value) [ err _ ↦ false | ok new ↦ f key old new ]
  ]

  unfoldable pub adapt_validate : (Bytes → V → Option Error) → Bytes → Message → Option Error
  adapt_validate f key value = elim (cast_value key value) [ err e ↦ some e | ok v ↦ f key v ]

  unfoldable pub adapt_create :
      {S : Type 0} → (Bytes → V → S → Result M × S) → Bytes → Message → S → Result Metadata × S
  unfolding wrap
  adapt_create f key value s = elim (cast_value key value) [
    | err e ↦ (err e, s)
    | ok v ↦ wrap (f key v s)
  ]

  unfoldable pub adapt_update :
      {S : Type 0}
      → (Bytes → V → V → M → S → Result M × S)
      → Bytes
      → Message
      → Message
      → Metadata
      → S
      → Result Metadata × S
  unfolding wrap
  adapt_update f key old_value new_value old_metadata s = elim (cast_value key old_value) [
    | err e ↦ (err e, s)
    | ok old ↦ elim (cast_value key new_value) [
      | err e ↦ (err e, s)
      | ok new ↦ elim (cast_metadata key old_metadata) [
        | err e ↦ (err e, s)
        | ok m ↦ wrap (f key old new m s)
      ]
    ]
  ]

  unfoldable pub adapt_delete :
      {S : Type 0}
      → (Bytes → V → M → S → Option Error × S)
      → Bytes
      → Message
      → Metadata
      → S
      → Option Error × S
  adapt_delete f key value metadata s = elim (cast_value key value) [
    | err e ↦ (some e, s)
    | ok v ↦ elim (cast_metadata key metadata) [ err e ↦ (some e, s) | ok m ↦ f key v m s ]
  ]

  unfoldable pub adapt_update_with_recreate :
      (Bytes → V → V → M → Bool) → Bytes → Message → Message → Metadata → Bool
  adapt_update_with_recreate f key old_value new_value metadata = elim (cast_value key old_value) [
    | err _ ↦ true
    | ok old ↦ elim (cast_value key new_value) [
      | err _ ↦ true
      | ok new ↦ elim (cast_metadata key metadata) [ err _ ↦ true | ok m ↦ f key old new m ]
    ]
  ]

  -- The pair that is kept of one, if both casts succeed, in front of the others.
  keep_typed :
      KvWithMetadata Message Metadata → List (KvWithMetadata V M) → List (KvWithMetadata V M)
  keep_typed kv rest = elim (cast_value kv.key kv.value) [
    | err _ ↦ rest
    | ok v ↦ elim (cast_metadata kv.key kv.metadata) [
      | err _ ↦ rest
      | ok m ↦ record { key = kv.key; value = v; metadata = m; origin = kv.origin } ∷ rest
    ]
  ]

  unfoldable pub correlate_with_type :
      List (KvWithMetadata Message Metadata) → List (KvWithMetadata V M)
  unfolding keep_typed
  correlate_with_type [] = []
  correlate_with_type (kv ∷ kvs) = keep_typed kv (correlate_with_type kvs)

  unfoldable pub without_type : List (KvWithMetadata V M) → List (KvWithMetadata Message Metadata)
  without_type [] = []
  without_type (kv ∷ kvs) =
      record {
        key = kv.key;
        value = to_message kv.value;
        metadata = to_metadata kv.metadata;
        origin = kv.origin;
      }
      ∷ without_type kvs

  retrieved :
      {S : Type 0}
      → Result (List (KvWithMetadata V M)) × S
      → Result (List (KvWithMetadata Message Metadata)) × S
  retrieved (err e, s) = (err e, s)
  retrieved (ok kvs, s) = (ok (without_type kvs), s)

  unfoldable pub adapt_retrieve :
      {S : Type 0}
      → (List (KvWithMetadata V M) → S → Result (List (KvWithMetadata V M)) × S)
      → List (KvWithMetadata Message Metadata)
      → S
      → Result (List (KvWithMetadata Message Metadata)) × S
  unfolding retrieved
  adapt_retrieve f correlate s = retrieved (f (correlate_with_type correlate) s)

  unfoldable pub adapt_derived_values :
      (Bytes → V → List (Bytes × Message)) → Bytes → Message → List (Bytes × Message)
  adapt_derived_values f key value = elim (cast_value key value) [ err _ ↦ [] | ok v ↦ f key v ]

  unfoldable pub adapt_dependencies : (Bytes → V → List Bytes) → Bytes → Message → List Bytes
  adapt_dependencies f key value = elim (cast_value key value) [ err _ ↦ [] | ok v ↦ f key v ]

  -- `NewNSMClientDescriptor` and `NewNSMEndpointDescriptor`: a function that is nil stays nil.
  unfoldable pub adapt : {S : Type 0} → Descriptor V M S → Descriptor Message Metadata S
  adapt d = record {
    name = d.name;
    key_selector = d.key_selector;
    value_type_name = d.value_type_name;
    key_label = d.key_label;
    nb_key_prefix = d.nb_key_prefix;
    with_metadata = d.with_metadata;
    is_retriable_failure = d.is_retriable_failure;
    retrieve_dependencies = d.retrieve_dependencies;
    value_comparator = Option.map adapt_value_comparator d.value_comparator;
    validate = Option.map adapt_validate d.validate;
    create = Option.map adapt_create d.create;
    delete = Option.map adapt_delete d.delete;
    update = Option.map adapt_update d.update;
    update_with_recreate = Option.map adapt_update_with_recreate d.update_with_recreate;
    retrieve = Option.map adapt_retrieve d.retrieve;
    derived_values = Option.map adapt_derived_values d.derived_values;
    dependencies = Option.map adapt_dependencies d.dependencies;
  }
