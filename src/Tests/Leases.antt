-- ===== src/Tests/Leases.antt =====
-- A witness for the clients of the SDK that are open.
use mathlib.Core.Path.{subst}
use cnf_nsm.Common.{◌≡◌, refl, true, false, [], ◌∷◌, codes, Bytes, str_eq}
use cnf_nsm.Errors.{ok, err, external}
use cnf_nsm.Proto.{NetworkServiceClient, kernel_interface}
use cnf_nsm.ClientDescriptor.{
  ClientSdk, NsmClientMetadata, NsmClientDescriptor, new_nsm_client_descriptor,
  build_interface_config, typed_config, client_configuration, create, delete_client,
}
use cnf_nsm.ClientDescriptor.Lifecycle.{Cleans, is_open, is_connected, GivesFresh}
use cnf_nsm.ClientDescriptor.Leases.{
  is_held, Leases, begins, creates, cannot_create, deletes, open-held,
}
use cnf_nsm.Tests.Samples.{sdk_names, sample_os, conn_a, env_config, sample_client, sample_sdk}

abbrev kernel_client : NetworkServiceClient
kernel_client = sample_client kernel_interface

abbrev second_sdk : ClientSdk
second_sdk = record sample_sdk { on_new = λ c. ok (codes "client-2") }

abbrev refusing_second : ClientSdk
refusing_second = record second_sdk {
  on_connect = λ client name mechanism descr. err (external (codes "refused"));
}

abbrev first : NsmClientMetadata
first = record { nsm_client = codes "client-1"; nsm_conn = conn_a }

abbrev second : NsmClientMetadata
second = record { nsm_client = codes "client-2"; nsm_conn = conn_a }

abbrev one : NsmClientDescriptor
one = (create sample_os sdk_names sample_sdk env_config kernel_client new_nsm_client_descriptor).1

abbrev refused : NsmClientDescriptor
refused = (create sample_os sdk_names refusing_second env_config kernel_client one).1

abbrev two : NsmClientDescriptor
two = (create sample_os sdk_names second_sdk env_config kernel_client refused).1

abbrev left : NsmClientDescriptor
left = (delete_client sample_os sdk_names sample_sdk kernel_client first two).1

one-GivesFresh :
    GivesFresh refusing_second (client_configuration sdk_names env_config kernel_client) one
unfolding create new_nsm_client_descriptor build_interface_config typed_config is_open is_connected
    str_eq
one-GivesFresh k given =
    let same : codes "client-2" ≡ k = cc in
    subst (λ (id : Bytes). (is_open one.sdk id ≡ false) × (is_connected one.sdk id ≡ false)) same
      (refl, refl)

refused-GivesFresh :
    GivesFresh second_sdk (client_configuration sdk_names env_config kernel_client) refused
unfolding create new_nsm_client_descriptor build_interface_config typed_config is_open is_connected
    str_eq
refused-GivesFresh k given =
    let same : codes "client-2" ≡ k = cc in
    subst (λ (id : Bytes). (is_open refused.sdk id ≡ false) × (is_connected refused.sdk id ≡ false))
      same (refl, refl)

cleans : Cleans refusing_second
cleans = record { closes = λ client conn. refl; destroys = λ client. refl }

-- A client is created, a second one is refused and then created, and the first is deleted.
left-Leases : Leases sdk_names left (second ∷ [])
unfolding create new_nsm_client_descriptor build_interface_config typed_config is_open is_connected
    str_eq
left-Leases =
    let held_one =
      creates sample_os sample_sdk env_config kernel_client first begins (λ k h. (refl, refl))
        refl in
    let held_refused =
      cannot_create sample_os refusing_second env_config kernel_client (external (codes "refused"))
        held_one cleans one-GivesFresh refl in
    let held_two =
      creates sample_os second_sdk env_config kernel_client second held_refused refused-GivesFresh
        refl in
    deletes sample_os sample_sdk kernel_client first held_two

open-held_example :
    (is_open left.sdk (codes "client-2") ≡ is_held (second ∷ []) (codes "client-2"))
    × (is_connected left.sdk (codes "client-2") ≡ true
        → is_held (second ∷ []) (codes "client-2") ≡ true)
open-held_example = open-held sdk_names left (second ∷ []) (codes "client-2") left-Leases
