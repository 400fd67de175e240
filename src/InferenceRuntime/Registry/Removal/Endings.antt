-- ===== src/InferenceRuntime/Registry/Removal/Endings.antt =====
-- A request whose sequence was destroyed, and one whose sequence is quarantined
-- (`remove_request` of crates/engines/inference-runtime/src/runtime.rs).
use llm_app.Prelude.{
  ◌+◌, ℕ, ◌-◌, ◌≤◌, ◌≡◌, refl, Bool, true, false, leb, some, ok, arith, total-insert_new,
  length-insert_new,
}
use llm_app.Prelude.{
  get, insert, remove, total-remove, value_in_total, length-remove, get-insert_self, insert-insert,
}
use llm_app.Contracts.Lifecycle.Owner.{Finishes, finish_request-Finishes}
use llm_app.Contracts.Model.{MemoryFootprint, SequenceError}
use llm_app.Contracts.Backend.{Backend}
use llm_app.InferenceRuntime.Errors.{RuntimeOperation, FailureClass}
use llm_app.InferenceRuntime.Footprints.{
  Part, part, checked_sub_footprint_ok, checked_add_footprint_ok, part-checked_sub_footprint,
  part-checked_add_footprint, checked_add_footprint, checked_sub_footprint,
}
use llm_app.InferenceRuntime.Registry.{
  Runtime, RequestSlot, ModelSlot, InferenceRuntime, slot_of, transition, succeed, u32_max, Result,
  err,
}
use llm_app.InferenceRuntime.Registry.Accounting.{
  IsBalanced, Replaces-IsBalanced, owned_bytes, sequence_bytes, active_of, quarantined_bytes,
}
use llm_app.InferenceRuntime.Registry.Accounting.Slots.{
  reserved-request, retired-SlotIsBalanced, quarantined-SlotIsBalanced,
}
use llm_app.InferenceRuntime.Registry.Removal.{
  retire_request, is_release, release_model_with_primary, quarantine_request,
}
use llm_app.InferenceRuntime.Registry.Removal.Release.{
  IsSettled, release_model_with_primary-IsSettled, cleanup_retention_error-is_removal_error,
}

module _ {B : Backend} where
  released-IsSettled :
      (release : Bool) (m : ℕ) (operation : RuntimeOperation) (failure : FailureClass)
      (rt : InferenceRuntime B)
      → IsBalanced rt
      → IsSettled (
          (elim release as (λ (x : Bool). Runtime B (Unit {0})) [
            | true ↦ release_model_with_primary m operation failure
            | false ↦ succeed tt
          ])
            rt)
  released-IsSettled true m operation failure rt b =
      release_model_with_primary-IsSettled m operation failure rt b
  released-IsSettled false m operation failure rt b = record { balanced = b; orderly = tt }

  module _ (m r : ℕ) (slot : ModelSlot B) (request : RequestSlot B) (rt : InferenceRuntime B)
      (b : IsBalanced rt) (there : get rt.models m ≡ some slot)
      (held : get slot.requests r ≡ some request) where
    pub finishing : Finishes slot.lifecycle
    finishing =
        finish_request-Finishes slot.lifecycle (
          omega (arith, (b.slots m slot there).counted, length-remove slot.requests r request held))

    pub active_positive : 1 ≤ rt.active_requests
    active_positive = omega (
      arith,
      b.active,
      value_in_total active_of rt.models m slot there,
      length-remove slot.requests r request held,
    )

    -- The registry reserves what the request's sequence holds.
    pub reserved-sequence :
        (k : Part) → part k request.backend_footprint ≤ part k rt.reserved_footprint
    reserved-sequence k = omega (
      arith,
      b.reserved k,
      value_in_total (owned_bytes k) rt.models m slot there,
      value_in_total (sequence_bytes k) slot.requests r request held,
    )

    retired-IsSettled :
        (operation : RuntimeOperation) (failure : FailureClass)
        (charged left next : MemoryFootprint)
        → checked_add_footprint request.backend_footprint request.workspace_footprint ≡ ok charged
        → checked_sub_footprint slot.reserved_footprint charged ≡ ok left
        → checked_sub_footprint rt.reserved_footprint request.backend_footprint ≡ ok next
        → Finishes slot.lifecycle
        → leb 1 rt.active_requests ≡ true
        → IsSettled (retire_request m r operation failure rt)
    unfolding retire_request slot_of transition
    retired-IsSettled operation failure charged left next h h' h'' f one =
        let bytes = λ (k : Part).
          part-checked_add_footprint k request.backend_footprint request.workspace_footprint charged
            h in
        let bytes' =
          λ (k : Part). part-checked_sub_footprint k slot.reserved_footprint charged left h' in
        let slot' = record slot {
          lifecycle = f.next;
          requests = remove r slot.requests;
          reserved_footprint = left;
        } in
        let rt' = record rt {
          models = insert m slot' rt.models;
          request_index = remove r rt.request_index;
          sequence_index = remove (B.id request.sequence) rt.sequence_index;
          active_requests = rt.active_requests - 1;
          reserved_footprint = next;
        } in
        let balanced = Replaces-IsBalanced m slot slot' rt rt' b (record {
          there = there;
          balanced =
              retired-SlotIsBalanced slot (b.slots m slot there) r request held f.next left
                f.counted (λ k. omega (arith, bytes k, bytes' k));
          models = refl;
          pending_models = refl;
          workspace = refl;
          reserved = λ k. omega (
            arith,
            part-checked_sub_footprint k rt.reserved_footprint request.backend_footprint next h'',
            total-remove (sequence_bytes k) slot.requests r request held,
          );
          active = omega (arith, active_positive, length-remove slot.requests r request held);
          pending = refl;
          counted = omega (arith, b.counted);
        }) in
        rw
          (
            there,
            held,
            h,
            h',
            insert-insert m,
            get-insert_self rt.models m,
            insert-insert m,
            f.finished,
            one,
            h'',
          )
          (released-IsSettled (is_release f.action) m operation failure rt' balanced)

    retire_request-IsSettled :
        (operation : RuntimeOperation) (failure : FailureClass)
        → IsSettled (retire_request m r operation failure rt)
    retire_request-IsSettled operation failure =
        let s = b.slots m slot there in
        let fits = reserved-request slot s r request held in
        let (charged, h) =
          checked_add_footprint_ok request.backend_footprint request.workspace_footprint
            (λ k. omega (arith, fits k, s.wide k)) in
        let (left, h') = checked_sub_footprint_ok slot.reserved_footprint charged (λ k. omega (
          arith,
          fits k,
          part-checked_add_footprint k request.backend_footprint request.workspace_footprint charged
              h,
        )) in
        let (next, h'') =
          checked_sub_footprint_ok rt.reserved_footprint request.backend_footprint
            reserved-sequence in
        retired-IsSettled operation failure charged left next h h' h'' finishing
          (ground (arith, active_positive))

    quarantined-IsSettled :
        (operation : RuntimeOperation) (failure : FailureClass) (cleanup : SequenceError)
        (left : MemoryFootprint)
        → checked_sub_footprint slot.reserved_footprint request.workspace_footprint ≡ ok left
        → Finishes slot.lifecycle
        → leb 1 rt.active_requests ≡ true
        → leb (rt.pending_cleanup_sequences + 1) u32_max ≡ true
        → IsSettled (quarantine_request m r operation failure cleanup rt)
    unfolding quarantine_request slot_of transition
    quarantined-IsSettled operation failure cleanup left h f one more =
        let apart = (b.slots m slot there).apart in
        rw
          (
            there,
            held,
            h,
            insert-insert m,
            get-insert_self rt.models m,
            insert-insert m,
            f.finished,
            one,
            more,
          )
          (record {
            balanced = Replaces-IsBalanced m slot _ rt _ b (record {
              there = there;
              balanced =
                  quarantined-SlotIsBalanced slot (b.slots m slot there) r request held f.next left
                    _ f.counted refl
                    (λ k.
                      part-checked_sub_footprint k slot.reserved_footprint
                        request.workspace_footprint left h);
              models = refl;
              pending_models = refl;
              workspace = refl;
              reserved = λ k. omega (
                arith,
                total-remove (sequence_bytes k) slot.requests r request held,
                total-insert_new (quarantined_bytes k) slot.pending_sequences r _
                    (apart r request held),
              );
              active = omega (arith, active_positive, length-remove slot.requests r request held);
              pending =
                  omega
                    (arith, length-insert_new slot.pending_sequences r _ (apart r request held));
              counted = omega (arith, active_positive, b.counted);
            });
            orderly = cleanup_retention_error-is_removal_error _;
          })

    quarantine_request-IsSettled :
        (operation : RuntimeOperation) (failure : FailureClass) (cleanup : SequenceError)
        → IsSettled (quarantine_request m r operation failure cleanup rt)
    quarantine_request-IsSettled operation failure cleanup =
        let s = b.slots m slot there in
        let fits = reserved-request slot s r request held in
        let (left, h) =
          checked_sub_footprint_ok slot.reserved_footprint request.workspace_footprint
            (λ k. omega (arith, fits k)) in
        quarantined-IsSettled operation failure cleanup left h finishing
          (ground (arith, active_positive)) (ground (arith, active_positive, b.counted))

    pub removed :
        (destroyed : Result SequenceError (Unit {0})) (operation : RuntimeOperation)
        (failure : FailureClass)
        → IsSettled (
            (elim destroyed as (λ (x : Result SequenceError (Unit {0})). Runtime B (Unit {0})) [
              | err cleanup ↦ quarantine_request m r operation failure cleanup
              | ok done ↦ retire_request m r operation failure
            ])
              rt)
    removed (err cleanup) =
        λ operation failure. quarantine_request-IsSettled operation failure cleanup
    removed (ok done) = retire_request-IsSettled
