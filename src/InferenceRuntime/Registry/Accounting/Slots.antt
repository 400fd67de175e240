-- ===== src/InferenceRuntime/Registry/Accounting/Slots.antt =====
-- Changes of one model's slot in crates/engines/inference-runtime/src/runtime.rs that keep its accounts.
use llm_app.Prelude.{ℕ, ◌+◌, ◌≤◌, ◌≡◌, sym, ap, ◌∙◌, inl, inr, true, some, arith}
use llm_app.Prelude.{
  get, insert, remove, total-insert, total-insert_new, total-remove, value_in_total, length-remove,
  length-insert_self, get-remove-some, get-insert-some, get-insert_ne, insert-IsAscending,
  remove-IsAscending,
}
use llm_app.Contracts.Lifecycle.{ModelLifecycle}
use llm_app.Contracts.Lifecycle.Requests.{requests}
use llm_app.Contracts.Model.{MemoryFootprint}
use llm_app.Contracts.Backend.{Backend}
use llm_app.InferenceRuntime.Footprints.{Part, part}
use llm_app.InferenceRuntime.Registry.{RequestSlot, PendingSequence, ModelSlot}
use llm_app.InferenceRuntime.Registry.Accounting.{
  SlotIsBalanced, owned_bytes, sequence_bytes, workspace_bytes, quarantined_bytes,
}

module _ {B : Backend} (slot : ModelSlot B) (b : SlotIsBalanced slot) where
  module _ (r : ℕ) (request : RequestSlot B) (there : get slot.requests r ≡ some request) where
    -- A request's sequence advances, and its model with it.
    pub sequence-SlotIsBalanced :
        (model : B.Model) (request' : RequestSlot B)
        → request'.backend_footprint ≡ request.backend_footprint
        → request'.workspace_footprint ≡ request.workspace_footprint
        → SlotIsBalanced (record slot { model = model; requests = insert r request' slot.requests })
    sequence-SlotIsBalanced model request' same same' = record {
      reserved = λ k. omega (
        arith,
        b.reserved k,
        ap (part k) same,
        ap (part k) same',
        total-insert (sequence_bytes k) slot.requests r request request' there,
        total-insert (workspace_bytes k) slot.requests r request request' there,
      );
      wide = b.wide;
      counted = b.counted ∙ sym (length-insert_self slot.requests r request request' there);
      requests_ascend = insert-IsAscending r request' slot.requests b.requests_ascend;
      pending_ascend = b.pending_ascend;
      apart = λ j v h. elim (get-insert-some slot.requests r j request' v b.requests_ascend h) [
        | inl (e, same) ↦ rw e (b.apart r request there)
        | inr (n, before) ↦ b.apart j v before
      ];
    }

    pub sequence-owned_bytes :
        (model : B.Model) (request' : RequestSlot B) (k : Part)
        → request'.backend_footprint ≡ request.backend_footprint
        → owned_bytes k (record slot { model = model; requests = insert r request' slot.requests })
          ≡ owned_bytes k slot
    sequence-owned_bytes model request' k same = omega (
      arith,
      ap (part k) same,
      total-insert (sequence_bytes k) slot.requests r request request' there,
    )

    -- What a request reserves is a part of what its model reserves.
    pub reserved-request :
        (k : Part)
        → part k request.backend_footprint + part k request.workspace_footprint
          ≤ part k slot.reserved_footprint
    reserved-request k = omega (
      arith,
      b.reserved k,
      value_in_total (sequence_bytes k) slot.requests r request there,
      value_in_total (workspace_bytes k) slot.requests r request there,
    )

    pub retired-SlotIsBalanced :
        (lifecycle : ModelLifecycle) (reserved : MemoryFootprint)
        → requests lifecycle.state + 1 ≡ requests slot.lifecycle.state
        → ((k : Part)
            → part k reserved
                + (part k request.backend_footprint + part k request.workspace_footprint)
              ≡ part k slot.reserved_footprint)
        → SlotIsBalanced (record slot {
          lifecycle = lifecycle;
          requests = remove r slot.requests;
          reserved_footprint = reserved;
        })
    retired-SlotIsBalanced lifecycle reserved counted bytes = record {
      reserved = λ k. omega (
        arith,
        bytes k,
        b.reserved k,
        total-remove (sequence_bytes k) slot.requests r request there,
        total-remove (workspace_bytes k) slot.requests r request there,
      );
      wide = λ k. omega (arith, bytes k, b.wide k);
      counted = omega (arith, counted, b.counted, length-remove slot.requests r request there);
      requests_ascend = remove-IsAscending r slot.requests b.requests_ascend;
      pending_ascend = b.pending_ascend;
      apart = λ j v h. b.apart j v (get-remove-some slot.requests r j v b.requests_ascend h).1;
    }

    pub quarantined-SlotIsBalanced :
        (lifecycle : ModelLifecycle) (reserved : MemoryFootprint) (sequence : PendingSequence B)
        → requests lifecycle.state + 1 ≡ requests slot.lifecycle.state
        → sequence.footprint ≡ request.backend_footprint
        → ((k : Part)
            → part k reserved + part k request.workspace_footprint ≡ part k slot.reserved_footprint)
        → SlotIsBalanced (record slot {
          lifecycle = lifecycle;
          requests = remove r slot.requests;
          reserved_footprint = reserved;
          pending_sequences = insert r sequence slot.pending_sequences;
          poisoned = true;
        })
    quarantined-SlotIsBalanced lifecycle reserved sequence counted same bytes = record {
      reserved = λ k. omega (
        arith,
        bytes k,
        b.reserved k,
        ap (part k) same,
        total-remove (sequence_bytes k) slot.requests r request there,
        total-remove (workspace_bytes k) slot.requests r request there,
        total-insert_new (quarantined_bytes k) slot.pending_sequences r sequence
            (b.apart r request there),
      );
      wide = λ k. omega (arith, bytes k, b.wide k);
      counted = omega (arith, counted, b.counted, length-remove slot.requests r request there);
      requests_ascend = remove-IsAscending r slot.requests b.requests_ascend;
      pending_ascend = insert-IsAscending r sequence slot.pending_sequences b.pending_ascend;
      apart = λ j v h.
          let (n, before) = get-remove-some slot.requests r j v b.requests_ascend h in
          get-insert_ne j r sequence slot.pending_sequences b.pending_ascend n ∙ b.apart j v before;
    }
