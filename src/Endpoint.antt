-- ===== src/Endpoint.antt =====
-- `NSMEndpoint` of plugins/nsmplugin/descriptor/nsm_endpoint.go: the connections of one endpoint, and
-- the interfaces that it has the agent configure for them. A method returns its result and the new
-- endpoint; the calls hold the demultiplexer's lock, so they do not interleave.
pub mod Index
pub mod Names
pub mod Config
pub mod Tracking
pub mod Invariant
pub mod Kept
pub mod Reach
pub mod Requests
pub mod Interface
pub mod Suffix
pub mod CloseAll
pub mod Allocation
pub mod Allocating
pub mod Readmission
pub mod Refinement
pub mod Granted
use cnf_nsm.Common.{
  ℕ, zero, suc, Bool, true, false, ◌&&◌, ◌||◌, List, [], ◌∷◌, ◌++◌, Option, none, some, Bytes,
  str_eq, ltb, ◌==◌, length, if◌then◌else◌,
}
use cnf_nsm.Common.GoMap.{GoMap, lookup, insert, erase}
use cnf_nsm.GoLib.Decimal.{itoa}
use cnf_nsm.GoLib.FilePath.{join_path, dir}
use cnf_nsm.Proto.{
  ConnectionInterfaceType, default_interface, kernel_interface, mem_interface, unnamed,
  NetworkServiceEndpoint,
}
use cnf_nsm.Errors.{
  Error, Result, ok, err, ◌>>=◌, no_suffix_label, unsupported_interface_type, only_single_client,
}
use cnf_nsm.External.{
  Os, SdkNames, Connection, InterfaceConfig, existing, memif, ChangeRequest, update, delete,
}
use cnf_nsm.Naming.{nsm_base_dir}

pub record NsmConnection : Type 0 where
  pub index : ℕ
  pub conn : Connection

-- `localclient` is the requests sent to the agent so far, the latest first.
pub record NsmEndpoint : Type 0 where
  pub cfg : NetworkServiceEndpoint
  pub localclient : List ChangeRequest
  pub connections : GoMap NsmConnection

unfoldable pub new_nsm_endpoint : NetworkServiceEndpoint → NsmEndpoint
new_nsm_endpoint cfg = record { cfg = cfg; localclient = []; connections = [] }

unfoldable pub uses_connection_index : GoMap NsmConnection → ℕ → Bool
uses_connection_index [] index = false
uses_connection_index ((id, c) ∷ m) index = index == c.index || uses_connection_index m index

-- `for e.usesConnectionIndex(index) { index++ }` with fuel
unfoldable pub next_free : ℕ → GoMap NsmConnection → ℕ → ℕ
next_free zero m index = index
next_free (suc fuel) m index =
    let more = next_free fuel m (suc index) in if uses_connection_index m index then more else index

-- The fuel is one more round than there are connections.
unfoldable pub allocate_connection_index : NsmEndpoint → ℕ
allocate_connection_index e = next_free (suc (length e.connections)) e.connections 0

known_index : NsmEndpoint → Option NsmConnection → ℕ
known_index e (some c) = c.index
known_index e none = allocate_connection_index e

unfoldable pub get_connection_index : NsmEndpoint → Connection → ℕ
unfolding known_index
get_connection_index e conn = known_index e (lookup conn.id e.connections)

labelled : Bytes → Bytes → Option Bytes → Result (Bytes × ℕ)
labelled prefix label none = err (no_suffix_label label)
labelled prefix label (some suffix) = ok (prefix ++ suffix, 0)

-- The name of the interface and the index that it takes.
unfoldable pub interface_name :
    NsmEndpoint → NetworkServiceEndpoint → Connection → Result (Bytes × ℕ)
unfolding labelled
interface_name e cfg conn =
    let index = get_connection_index e conn in
    let suffix_from_label = cfg.interface_name_suffix_from_label in
    if str_eq suffix_from_label []
    then ok (cfg.interface_name_prefix ++ itoa index, index)
    else labelled cfg.interface_name_prefix suffix_from_label (lookup suffix_from_label conn.labels)

or_empty : Option Bytes → Bytes
or_empty none = []
or_empty (some s) = s

unfoldable pub kernel_config :
    SdkNames → NetworkServiceEndpoint → Connection → Bytes → InterfaceConfig
unfolding or_empty
kernel_config names cfg conn name = existing (record {
  name = name;
  host_if_name = or_empty (lookup names.interface_name_key conn.parameters);
  enabled = true;
  ip_addresses = if cfg.single_client then cfg.ip_addresses else [];
  phys_address = if cfg.single_client then cfg.phys_address else [];
})

unfoldable pub memif_config : NetworkServiceEndpoint → Bytes → Bytes → InterfaceConfig
memif_config cfg socket_filename name = memif (record {
  name = name;
  enabled = true;
  ip_addresses = if cfg.single_client then cfg.ip_addresses else [];
  phys_address = if cfg.single_client then cfg.phys_address else [];
  master = true;
  socket_filename = socket_filename;
})

made_dir : Option Error → Result (Unit {0})
made_dir none = ok tt
made_dir (some x) = err x

-- The switch over the type of the interface.
unfoldable pub typed_config :
    Os
    → SdkNames
    → NetworkServiceEndpoint
    → Connection
    → ConnectionInterfaceType
    → Bytes
    → Result InterfaceConfig
unfolding kernel_config memif_config made_dir
typed_config os names cfg conn default_interface name = ok (kernel_config names cfg conn name)
typed_config os names cfg conn kernel_interface name = ok (kernel_config names cfg conn name)
typed_config os names cfg conn mem_interface name = do
  base_dir ← nsm_base_dir os names
  let socket_filename = join_path base_dir conn.socket_filename
  made ← made_dir (os.mkdir_all (dir socket_filename))
  ok (memif_config cfg socket_filename name)
typed_config os names cfg conn (unnamed n) name = err (unsupported_interface_type (unnamed n))

module _ (os : Os) (names : SdkNames) where
  unfoldable pub build_interface_config :
      NsmEndpoint → NetworkServiceEndpoint → Connection → Result (InterfaceConfig × ℕ)
  build_interface_config e cfg conn = do
    (name, index) ← interface_name e cfg conn
    iface ← typed_config os names cfg conn cfg.interface_type name
    ok (iface, index)

  forget : NsmEndpoint → Connection → Result (InterfaceConfig × ℕ) → Option Error × NsmEndpoint
  forget e conn (err x) = (some x, e)
  forget e conn (ok (config, _)) = (
    none,
    record e {
      localclient = delete (config ∷ []) ∷ e.localclient;
      connections = erase conn.id e.connections;
    },
  )

  unfoldable pub close_connection : NsmEndpoint → Connection → Option Error × NsmEndpoint
  unfolding forget
  close_connection e conn = forget e conn (build_interface_config e e.cfg conn)

  -- The loop over the connections, in the order that the iteration happens to have.
  unfoldable pub close_all : NsmEndpoint → List NsmConnection → Option Error × NsmEndpoint
  close_all e [] = (none, e)
  close_all e (c ∷ order) =
      let (failed, e') = close_connection e c.conn in
      let rest = close_all e' order in elim failed [ some x ↦ (some x, e') | none ↦ rest ]

-- The handler behind this one in the composite, if there is one: what it returns for a request, and
-- for a connection to close.
pub record Next : Type 0 where
  pub request : Connection → Connection × Option Error
  pub close : Connection → Option Error

module _ (os : Os) (names : SdkNames) where
  pub after_request : Option Next → Connection → Connection × Option Error
  after_request none conn = (conn, none)
  after_request (some next) conn = next.request conn

  open_with :
      Option Next
      → NsmEndpoint
      → Connection
      → Result (InterfaceConfig × ℕ)
      → (Connection × Option Error) × NsmEndpoint
  open_with next e conn (err x) = ((conn, some x), e)
  open_with next e conn (ok (config, index)) = (
    after_request next conn,
    record e {
      localclient = update (config ∷ []) ∷ e.localclient;
      connections = insert conn.id (record { index = index; conn = conn }) e.connections;
    },
  )

  -- The rest of `Request`, from the test whether one more connection is allowed.
  unfoldable pub admit :
      Option Next → NsmEndpoint → Connection → (Connection × Option Error) × NsmEndpoint
  unfolding open_with after_request
  admit next e conn =
      if e.cfg.single_client && ltb 0 (length e.connections)
      then ((conn, some only_single_client), e)
      else open_with next e conn (build_interface_config os names e e.cfg conn)

  -- An earlier connection of the same client is closed first.
  unfoldable pub drop_duplicate : NsmEndpoint → Connection → Option Error × NsmEndpoint
  drop_duplicate e conn = elim (lookup conn.id e.connections) [
    | none ↦ (none, e)
    | some _ ↦ close_connection os names e conn
  ]

  unfoldable pub request :
      Option Next → NsmEndpoint → Connection → (Connection × Option Error) × NsmEndpoint
  request next e conn =
      let (failed, e') = drop_duplicate e conn in
      elim failed [ some x ↦ ((conn, some x), e') | none ↦ admit next e' conn ]

  after_close : Option Next → Connection → Option Error
  after_close none conn = none
  after_close (some next) conn = next.close conn

  unfoldable pub close : Option Next → NsmEndpoint → Connection → Option Error × NsmEndpoint
  unfolding after_close
  close next e conn =
      let (failed, e') = close_connection os names e conn in
      elim failed [ some x ↦ (some x, e') | none ↦ (after_close next conn, e') ]

  -- `order` is the order in which the iteration meets the connections.
  unfoldable pub close_connections : NsmEndpoint → List NsmConnection → Option Error × NsmEndpoint
  close_connections e order = close_all os names e order
