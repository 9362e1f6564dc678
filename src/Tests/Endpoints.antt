-- ===== src/Tests/Endpoints.antt =====
-- Witnesses for the endpoint.
use mathlib.Core.List.{Perm, Permᴰ}
use cnf_nsm.Common.{
  ◌≡◌, ◌≢◌, ◌≤◌, refl, true, false, List, [], ◌∷◌, ◌++◌, none, some, codes, Bytes, str_eq, length,
  arith,
}
use cnf_nsm.Common.GoMap.{lookup, insert, erase}
use cnf_nsm.Proto.{NetworkServiceEndpoint, kernel_interface, mem_interface}
use cnf_nsm.External.{linux, InterfaceKind, update, delete, configured}
use cnf_nsm.Endpoint.{
  NsmEndpoint, NsmConnection, new_nsm_endpoint, request, close, close_connections,
  allocate_connection_index, build_interface_config, kernel_config, interface_name, typed_config,
  get_connection_index, next_free, uses_connection_index, drop_duplicate, admit, close_connection,
  close_all,
}
use cnf_nsm.GoLib.Decimal.{itoa}
use cnf_nsm.Endpoint.Index.{IsLeastFree, allocate_connection_index_lem}
use cnf_nsm.Endpoint.Reach.{Reach, Reach-IsValid, created, after, requests}
use cnf_nsm.Tests.Samples.{sdk_names, sample_os, conn_a, conn_b, endpoint_of, open_one, open_two}
use cnf_nsm.Endpoint.Requests.{close-request}
use cnf_nsm.Endpoint.CloseAll.{values, close_connections_nil, close_connections_kernel}
use cnf_nsm.Endpoint.Allocation.{Runs, Call, request_answered, close_answered, indexes}
use cnf_nsm.Endpoint.Readmission.{Outcome}
use cnf_nsm.Endpoint.Refinement.{
  Served, fresh, requested, ended, allocation_refines, request_refines,
}
use cnf_nsm.Endpoint.Suffix.{close_shared_suffix}
use cnf_nsm.External.{InterfaceConfig}

abbrev many : NetworkServiceEndpoint
many = endpoint_of false [] kernel_interface

abbrev single : NetworkServiceEndpoint
single = endpoint_of true [] kernel_interface

abbrev memifs : NetworkServiceEndpoint
memifs = endpoint_of true [] mem_interface

abbrev zoned : NetworkServiceEndpoint
zoned = endpoint_of false (codes "zone") kernel_interface

b_not_a : codes "b" ≢ codes "a"
b_not_a h = ground arith

zone_named : codes "zone" ≢ []
zone_named h = cc

abbrev built_for : NetworkServiceEndpoint → Bytes → InterfaceConfig
unfolding kernel_config
built_for cfg name = kernel_config sdk_names cfg conn_a name

abbrev open_one_Reach : (cfg : NetworkServiceEndpoint) → Reach sdk_names cfg (open_one cfg)
open_one_Reach cfg = after created (requests sample_os none _ conn_a)

abbrev open_two_Reach : (cfg : NetworkServiceEndpoint) → Reach sdk_names cfg (open_two cfg)
open_two_Reach cfg =
    after (after created (requests sample_os none _ conn_a)) (requests sample_os none _ conn_b)

allocate_connection_index_lem_example :
    IsLeastFree (open_two many).connections (allocate_connection_index (open_two many))
    × (allocate_connection_index (open_two many) ≤ length (open_two many).connections)
allocate_connection_index_lem_example = allocate_connection_index_lem (open_two many)

close-request_example :
    ((close sample_os sdk_names none
        (request sample_os sdk_names none (new_nsm_endpoint many) conn_a).1
        conn_a).1.localclient
      ≡ delete (built_for many (codes "if0") ∷ [])
        ∷ update (built_for many (codes "if0") ∷ [])
        ∷ (new_nsm_endpoint many).localclient)
    × ((id : Bytes)
        → lookup id
            (close sample_os sdk_names none
              (request sample_os sdk_names none (new_nsm_endpoint many) conn_a).1
              conn_a).1.connections
          ≡ lookup id (new_nsm_endpoint many).connections)
unfolding new_nsm_endpoint build_interface_config interface_name typed_config get_connection_index
    allocate_connection_index next_free uses_connection_index lookup itoa str_eq kernel_config
close-request_example =
    close-request sample_os sdk_names none (new_nsm_endpoint many) conn_a
      (built_for many (codes "if0")) 0 refl refl refl

-- The order in which the iteration meets the connections is not that of the map.
abbrev both : List NsmConnection
both = record { index = 0; conn = conn_a } ∷ record { index = 1; conn = conn_b } ∷ []

both-Perm : Perm both (values (open_two many).connections)
unfolding request drop_duplicate admit new_nsm_endpoint build_interface_config interface_name
    typed_config get_connection_index allocate_connection_index next_free uses_connection_index
    lookup insert erase itoa str_eq kernel_config
both-Perm = ∣ Permᴰ.swap refl refl ∣₁

close_connections_nil_example :
    (close_connections sample_os sdk_names (open_two many) both).1.connections ≡ []
unfolding close_connections close_all close_connection request drop_duplicate admit new_nsm_endpoint
    build_interface_config interface_name typed_config get_connection_index
    allocate_connection_index next_free uses_connection_index lookup insert erase itoa str_eq
    kernel_config
close_connections_nil_example =
    close_connections_nil sample_os sdk_names many (open_two many) both (open_two_Reach many)
      both-Perm refl

close_shared_suffix_example :
    (configured linux
        (close sample_os sdk_names none (open_two zoned) conn_b).1.localclient
        (codes "if" ++ codes "x")
      ≡ false)
    × (lookup (codes "a") (close sample_os sdk_names none (open_two zoned) conn_b).1.connections
        ≡ some (record { index = 0; conn = conn_a }))
unfolding close close_connection request drop_duplicate admit new_nsm_endpoint
    build_interface_config interface_name typed_config get_connection_index
    allocate_connection_index next_free uses_connection_index lookup insert erase itoa str_eq
    kernel_config
close_shared_suffix_example =
    close_shared_suffix sample_os sdk_names (open_two zoned) none
      (record { index = 0; conn = conn_a }) conn_b (codes "zone") (codes "x") refl zone_named refl
      refl b_not_a refl refl

close_connections_kernel_example :
    ((close_connections sample_os sdk_names (open_two many) both).0 ≡ none)
    × ((close_connections sample_os sdk_names (open_two many) both).1.connections ≡ [])
    × ((k : InterfaceKind) (n : Bytes)
        → configured k (close_connections sample_os sdk_names (open_two many) both).1.localclient n
          ≡ false)
close_connections_kernel_example =
    close_connections_kernel sample_os sdk_names many (open_two many) both (open_two_Reach many)
      both-Perm refl refl

abbrev closed_one : NsmEndpoint
closed_one = (close sample_os sdk_names none (open_two many) conn_a).1

-- Two clients come, and the first goes.
abbrev three_calls : List Call
three_calls =
    close_answered (codes "a") none
    ∷ request_answered (codes "b") none
    ∷ request_answered (codes "a") none
    ∷ []

closed_one-Served : Served sdk_names many three_calls closed_one
unfolding close close_connection request drop_duplicate admit new_nsm_endpoint
    build_interface_config interface_name typed_config get_connection_index
    allocate_connection_index next_free uses_connection_index lookup insert erase itoa str_eq
    kernel_config
closed_one-Served =
    ended sample_os none conn_a
      (requested sample_os none conn_b (requested sample_os none conn_a fresh))

allocation_refines_example : Runs many three_calls (indexes closed_one.connections)
allocation_refines_example =
    allocation_refines sdk_names many three_calls closed_one closed_one-Served

request_refines_example :
    Outcome (request sample_os sdk_names none (open_one many) conn_b) (open_one many) conn_b
request_refines_example =
    request_refines sample_os sdk_names none (open_one many) conn_b
      (Reach-IsValid (open_one_Reach many))
