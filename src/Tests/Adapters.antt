-- ===== src/Tests/Adapters.antt =====
-- Witnesses for the adapters.
use cnf_nsm.Common.{Option, ◌≡◌, refl, List, [], ◌∷◌, none, some, codes}
use cnf_nsm.Errors.{ok}
use cnf_nsm.Proto.{kernel_interface, NetworkServiceClient}
use cnf_nsm.ClientDescriptor
use cnf_nsm.ClientDescriptor.{
  NsmClientMetadata, NsmClientDescriptor, new_nsm_client_descriptor, delete_client,
}
use cnf_nsm.Adapter.Values.{Message, client_metadata}
use cnf_nsm.Adapter.{KvWithMetadata, adapt_create, adapt_delete}
use cnf_nsm.Adapter.Client.{cast_nsm_client_value, nsm_client_casts, to_pointer, delete_pointer}
use cnf_nsm.Adapter.Laws.{delete_created}
use cnf_nsm.Tests.Samples.{sdk_names, sample_os, conn_a, env_config, sample_client, sample_sdk}

abbrev idle : NsmClientDescriptor
idle = new_nsm_client_descriptor

abbrev kvs : List (KvWithMetadata NetworkServiceClient (Option NsmClientMetadata))
kvs =
    record {
      key = codes "k";
      value = sample_client kernel_interface;
      metadata = none;
      origin = codes "north";
    }
    ∷ []

abbrev new_metadata : Option NsmClientMetadata
new_metadata = some (record { nsm_client = codes "client-1"; nsm_conn = conn_a })

delete_created_example :
    (m : NsmClientMetadata) × ((ClientDescriptor.create sample_os sdk_names sample_sdk env_config
        (sample_client kernel_interface)
        idle).0
      ≡ ok m)
    × (adapt_delete nsm_client_casts
          (λ k c p s. delete_pointer sample_os sdk_names sample_sdk c p s)
          (codes "k")
          (Message.client (sample_client kernel_interface))
          (client_metadata new_metadata)
          idle
        ≡ delete_client sample_os sdk_names sample_sdk (sample_client kernel_interface) m idle)
unfolding adapt_create to_pointer cast_nsm_client_value ClientDescriptor.create
    ClientDescriptor.build_interface_config ClientDescriptor.typed_config
delete_created_example =
    delete_created sample_os sdk_names sample_sdk env_config (codes "k")
      (sample_client kernel_interface) idle idle (client_metadata new_metadata) refl
