-- ===== src/Endpoint/Allocation.antt =====
-- What an endpoint promises of the indexes that it gives to its clients, apart from how it keeps them.
use mathlib.Core.Path.{fun_ext}
use cnf_nsm.Common.{
  ℕ, ◌<◌, ◌≡◌, ◌≢◌, true, false, List, [], ◌∷◌, ◌++◌, Option, none, some, Bytes, arith, str_eq,
  str_eq_iff, ◌==◌, if◌then◌else◌, Bool-cases, inl, inr,
}
use cnf_nsm.Common.GoMap.{GoMap, lookup, erase, insert, lookup-erase, lookup-insert}
use cnf_nsm.Errors.{Error}
use cnf_nsm.Proto.{NetworkServiceEndpoint}
use cnf_nsm.Endpoint.{NsmConnection, uses_connection_index}
use cnf_nsm.Endpoint.Index.{IsLeastFree}
use cnf_nsm.Endpoint.Names.{HasDistinctIds}

-- The index of each client that has a connection.
abbrev pub Allocation : Type 0
Allocation = Bytes → Option ℕ

abbrev pub assign : Bytes → ℕ → Allocation → Allocation
assign k i s id = if str_eq k id then some i else s id

abbrev pub release : Bytes → Allocation → Allocation
release k s id = if str_eq k id then none else s id

-- No client has the index, and each smaller one is some client's.
pub record IsFirstFree (s : Allocation) (i : ℕ) : Type 0 where
  pub free : (id : Bytes) → s id ≢ some i
  pub first : (j : ℕ) → j < i → (id : Bytes) × (s id ≡ some j)

-- The index of a new client beside the others: the first free one, or zero where names end in labels.
pub data IsChosen (cfg : NetworkServiceEndpoint) (s : Allocation) : ℕ → Type 0 where
  by_index :
      (i : ℕ) → cfg.interface_name_suffix_from_label ≡ [] → IsFirstFree s i → IsChosen cfg s i
  by_label : cfg.interface_name_suffix_from_label ≢ [] → IsChosen cfg s 0

-- A client gets a connection, instead of the one that it may have had; with a single client there is
-- no other one.
pub data Assigns (cfg : NetworkServiceEndpoint) (k : Bytes) (s : Allocation)
    : Allocation → Type 0 where
  assigns :
      (i : ℕ)
      → IsChosen cfg (release k s) i
      → (cfg.single_client ≡ true → (id : Bytes) → release k s id ≡ none)
      → Assigns cfg k s (assign k i s)

-- Clients go one after the other.
abbrev pub release_all : List Bytes → Allocation → Allocation
release_all [] s = s
release_all (k ∷ ks) s = release_all ks (release k s)

-- A call of an endpoint with its answer, an error or none: a request of a client, the closing of its
-- connection, or that of all connections, whose clients are met in some order.
pub data Call : Type 0 where
  request_answered close_answered : Bytes → Option Error → Call
  close_all_answered : List Bytes → Option Error → Call

-- What a call with its answer makes of an allocation. A request assigns an index, or answers with an
-- error and changes nothing; so does a closing, which releases the index of its client. What comes next
-- behind an endpoint may answer with an error after either. The closing of
-- all releases that of every client that is met, and if it ends with an error those of the first ones.
pub data Follows (cfg : NetworkServiceEndpoint) (s : Allocation) : Call → Allocation → Type 0 where
  refuses : (k : Bytes) (x : Error) → Follows cfg s (request_answered k (some x)) s
  grants :
      (k : Bytes) (answer : Option Error) {t : Allocation}
      → Assigns cfg k s t
      → Follows cfg s (request_answered k answer) t
  cannot_close : (k : Bytes) (x : Error) → Follows cfg s (close_answered k (some x)) s
  releases :
      (k : Bytes) (answer : Option Error) → Follows cfg s (close_answered k answer) (release k s)
  releases_all : (ks : List Bytes) → Follows cfg s (close_all_answered ks none) (release_all ks s)
  releases_some :
      (ks rest : List Bytes) (x : Error)
      → Follows cfg s (close_all_answered (ks ++ rest) (some x)) (release_all ks s)

-- The allocations that calls lead to, from no clients; the latest call is the first.
pub data Runs (cfg : NetworkServiceEndpoint) : List Call → Allocation → Type 0 where
  idle : Runs cfg [] (λ _. none)
  next_call :
      {h : List Call} {s t : Allocation} (c : Call)
      → Runs cfg h s
      → Follows cfg s c t
      → Runs cfg (c ∷ h) t

index_of : Option NsmConnection → Option ℕ
index_of none = none
index_of (some c) = some c.index

-- The allocation that the connections of an endpoint represent.
unfoldable pub indexes : GoMap NsmConnection → Allocation
unfolding index_of
indexes m id = index_of (lookup id m)

pub indexes-insert :
    (k : Bytes) (c : NsmConnection) (m : GoMap NsmConnection)
    → indexes (insert k c m) ≡ assign k c.index (indexes m)
unfolding indexes
indexes-insert k c m = fun_ext λ id. ground (arith, lookup-insert k id c m)

pub indexes-erase :
    (k : Bytes) (m : GoMap NsmConnection) → indexes (erase k m) ≡ release k (indexes m)
unfolding indexes
indexes-erase k m = fun_ext λ id. ground (arith, lookup-erase k id m)

-- Assigning after a release is the same as assigning.
pub assign-release : (k : Bytes) (i : ℕ) (s : Allocation) → assign k i (release k s) ≡ assign k i s
assign-release k i s = fun_ext λ id. ground arith

pub release-release : (k : Bytes) (s : Allocation) → release k (release k s) ≡ release k s
release-release k s = fun_ext λ id. ground arith

pub release_absent : (k : Bytes) (s : Allocation) → s k ≡ none → release k s ≡ s
release_absent k s h = fun_ext λ id. ground (arith, str_eq_iff k id)

uses_free :
    (m : GoMap NsmConnection) (i : ℕ) (id : Bytes)
    → uses_connection_index m i ≡ false
    → indexes m id ≢ some i
unfolding uses_connection_index indexes lookup
uses_free [] i id h = λ e. cc
uses_free ((j, c) ∷ m) i id h = ground (arith, uses_free m i id)

uses_bound :
    (m : GoMap NsmConnection) (i : ℕ)
    → HasDistinctIds m
    → uses_connection_index m i ≡ true
    → (id : Bytes) × (indexes m id ≡ some i)
unfolding uses_connection_index indexes lookup
uses_bound [] i ids h = cc
uses_bound ((j, c) ∷ m) i ids h = elim (Bool-cases (i == c.index)) [
  | inl same ↦ (j, ground (arith, str_eq_iff j j))
  | inr other ↦
      let (id, found) = uses_bound m i ids.1 (ground arith) in (id, ground (arith, str_eq_iff j id))
]

-- The least index that no connection uses is the first free one.
pub IsFirstFree-indexes :
    (m : GoMap NsmConnection) (i : ℕ)
    → HasDistinctIds m
    → IsLeastFree m i
    → IsFirstFree (indexes m) i
IsFirstFree-indexes m i ids l = record {
  free = λ id. uses_free m i id l.free;
  first = λ j lt. uses_bound m j ids (l.least j lt);
}
