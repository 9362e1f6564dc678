-- ===== src/Crd/Handler/Publish.antt =====
-- What the handler publishes.
use cnf_nsm.Common.{ℕ, ◌≡◌, refl, List, ◌∷◌, Option, none, some, Bytes, length, ◌∙◌}
use cnf_nsm.Errors.{Error}
use cnf_nsm.Crd.DeepCopy.{
  CnfConfiguration, deep_copy, deep_copy_spec, copy_items, status_success, status_failure,
}
use cnf_nsm.Crd.DeepCopy.Fresh.{
  IsBelow, contents, overwrite, copied_items, items_at, items_at-overwrite, items_at-append,
}
use cnf_nsm.Crd.Handler.{Cluster, cnf_configuration, with_status, publish_crd_status}

-- The status of an operation, with the message that stood before.
abbrev pub status_of : Option Bytes → Bytes → Bytes × Bytes
status_of none message = (status_success, message)
status_of (some text) message = (status_failure, text)

module _ {Item : Type 0} (on_update : Bytes → CnfConfiguration → Option Error) where
  copied_slice :
      (o : Option ℕ) (s : Cluster Item) (items : List Item)
      → IsBelow (length s.heap) o
      → (items_at (copy_items o s.heap).1 (copy_items o s.heap).0 ≡ items_at s.heap o)
        × (items_at (overwrite (copy_items o s.heap).1 (copy_items o s.heap).0 items) o
            ≡ items_at s.heap o)
  copied_slice o s items below =
      let (more, grown, from, same, _) = copied_items o s.heap in
      let kept : items_at (copy_items o s.heap).1 o ≡ items_at s.heap o =
        rw grown (items_at-append s.heap more o below) in
      (
        same,
        items_at-overwrite (copy_items o s.heap).1 (length s.heap) (copy_items o s.heap).0 o items
              from below
            ∙ kept,
      )

  -- To publish the status of a resource, whose slice is nil or in the heap, sends one update to the
  -- namespace of the resource and returns what it answers. The resource sent has the status of the
  -- operation and is the same otherwise; its message is that of the error, or the one that stood there
  -- if the operation succeeded. Whatever is then written to its array, the resource that was handed in
  -- holds what it held.
  pub publish_crd_status_lem :
      (c : CnfConfiguration) (op_retval : Option Bytes) (s : Cluster Item) (items : List Item)
      → IsBelow (length s.heap) c.spec.config_items
      → (published : CnfConfiguration) × ((publish_crd_status on_update
            (cnf_configuration c)
            op_retval
            s).0
          ≡ on_update c.object_meta.namespace published)
        × ((publish_crd_status on_update (cnf_configuration c) op_retval s).1.updates
            ≡ (c.object_meta.namespace, published) ∷ s.updates)
        × ((published.status.status, published.status.message)
            ≡ status_of op_retval c.status.message)
        × (contents
              (publish_crd_status on_update (cnf_configuration c) op_retval s).1.heap
              (record published { status = c.status })
            ≡ contents s.heap c)
        × (contents
              (overwrite
                (publish_crd_status on_update (cnf_configuration c) op_retval s).1.heap
                published.spec.config_items
                items)
              c
            ≡ contents s.heap c)
  unfolding publish_crd_status deep_copy deep_copy_spec with_status
  publish_crd_status_lem c none s items below =
      let (same, apart) = copied_slice c.spec.config_items s items below in
      (_, refl, refl, refl, rw same, rw apart)
  publish_crd_status_lem c (some text) s items below =
      let (same, apart) = copied_slice c.spec.config_items s items below in
      (_, refl, refl, refl, rw same, rw apart)

  -- A failure is published with its message, and the success of a later operation on the resource that
  -- was sent leaves that message: the resource says "Success" with the text of the old error.
  pub publish_after_failure :
      (c : CnfConfiguration) (text : Bytes) (s : Cluster Item)
      → (failed published : CnfConfiguration) × ((publish_crd_status on_update
            (cnf_configuration c)
            (some text)
            s).1.updates
          ≡ (c.object_meta.namespace, failed) ∷ s.updates)
        × ((publish_crd_status on_update
              (cnf_configuration failed)
              none
              (publish_crd_status on_update (cnf_configuration c) (some text) s).1).1.updates
            ≡ (c.object_meta.namespace, published) ∷ (c.object_meta.namespace, failed) ∷ s.updates)
        × (published.status.status ≡ status_success)
        × (published.status.message ≡ text)
  unfolding publish_crd_status deep_copy deep_copy_spec with_status
  publish_after_failure c text s = (_, _, refl, refl, refl, refl)
