-- ===== src/Adapter/Values.antt =====
-- Values and metadata as the KV scheduler holds them: of one of the types of the plugin, or of another.
use cnf_nsm.Common.{Bytes, Option}
use cnf_nsm.Proto.{NetworkServiceClient, NetworkServiceEndpoint}
use cnf_nsm.ClientDescriptor.{NsmClientMetadata}

pub data Message : Type 0 where
  client : NetworkServiceClient → Message
  endpoint : NetworkServiceEndpoint → Message
  other : Bytes → Message

-- The empty interface: nil, a pointer to the metadata of a client, which may be nil itself, or another.
pub data Metadata : Type 0 where
  nil : Metadata
  client_metadata : Option NsmClientMetadata → Metadata
  other : Bytes → Metadata
