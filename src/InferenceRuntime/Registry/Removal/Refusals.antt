-- ===== src/InferenceRuntime/Registry/Removal/Refusals.antt =====
-- The last request of a model that is unloading while it has a quarantined sequence
-- (crates/engines/inference-runtime/src/runtime.rs).
use llm_app.Prelude.{ℕ, ◌≡◌, refl, true, false, leb, some, List, ◌∷◌, ok, err, arith}
use llm_app.Prelude.{get, insert, remove, get-insert_self, insert-insert}
use llm_app.Contracts.Lifecycle.{LifecycleAction, LifecycleError, finish_request}
use llm_app.Contracts.Lifecycle.Owner.{Finishes}
use llm_app.Contracts.Model.{MemoryFootprint}
use llm_app.Contracts.Backend.{Backend}
use llm_app.InferenceRuntime.Errors.{RuntimeError, RuntimeOperation, FailureClass}
use llm_app.InferenceRuntime.Footprints.{checked_sub_footprint, checked_add_footprint}
use llm_app.InferenceRuntime.Registry.{
  RequestSlot, PendingSequence, ModelSlot, InferenceRuntime, slot_of, transition, request_model_id,
}
use llm_app.InferenceRuntime.Registry.Accounting.{IsBalanced}
use llm_app.InferenceRuntime.Footprints.{
  checked_add_footprint_ok, checked_sub_footprint_ok, part-checked_add_footprint,
}
use llm_app.InferenceRuntime.Registry.Accounting.Slots.{reserved-request}
use llm_app.InferenceRuntime.Registry.Removal.Endings.{
  finishing, active_positive, reserved-sequence,
}
use llm_app.InferenceRuntime.Registry.Removal.Requests.{touched}
use llm_app.InferenceRuntime.Registry.Removal.{
  is_releasable, retire_request, remove_request, release_model_with_primary,
}

module _ {B : Backend} where
  quarantined-is_releasable :
      (slot : ModelSlot B) (q : ℕ) (p : PendingSequence B) (ps : List (ℕ × PendingSequence B))
      → slot.pending_sequences ≡ (q, p) ∷ ps
      → is_releasable slot ≡ false
  quarantined-is_releasable slot q p ps h = rw h (ground arith)

  module _ (m r : ℕ) (slot : ModelSlot B) (request : RequestSlot B) (rt : InferenceRuntime B)
      (there : get rt.models m ≡ some slot) (held : get slot.requests r ≡ some request) where
    retire_request-refused :
        (operation : RuntimeOperation) (failure : FailureClass)
        (charged left next : MemoryFootprint) (q : ℕ) (p : PendingSequence B)
        (ps : List (ℕ × PendingSequence B)) (f : Finishes slot.lifecycle)
        → checked_add_footprint request.backend_footprint request.workspace_footprint ≡ ok charged
        → checked_sub_footprint slot.reserved_footprint charged ≡ ok left
        → checked_sub_footprint rt.reserved_footprint request.backend_footprint ≡ ok next
        → leb 1 rt.active_requests ≡ true
        → f.action ≡ LifecycleAction.release_model
        → slot.pending_sequences ≡ (q, p) ∷ ps
        → (retire_request m r operation failure rt).0
          ≡ err (RuntimeError.lifecycle LifecycleError.invalid_transition)
    unfolding retire_request slot_of transition release_model_with_primary
    retire_request-refused operation failure charged left next q p ps f h h' h'' one release kept =
        rw
          (
            there,
            held,
            h,
            h',
            insert-insert m,
            get-insert_self rt.models m,
            insert-insert m,
            f.finished,
            one,
            h'',
            release,
            get-insert_self rt.models m,
          )
          (rw
            (quarantined-is_releasable
              (record slot {
                lifecycle = f.next;
                requests = remove r slot.requests;
                reserved_footprint = left;
              })
              q p ps kept)
            refl)

    -- The same with what a balanced registry knows about its numbers.
    retire_request-quarantine :
        (operation : RuntimeOperation) (failure : FailureClass) (q : ℕ) (p : PendingSequence B)
        (ps : List (ℕ × PendingSequence B))
        → IsBalanced rt
        → (finish_request slot.lifecycle).0 ≡ ok LifecycleAction.release_model
        → slot.pending_sequences ≡ (q, p) ∷ ps
        → (retire_request m r operation failure rt).0
          ≡ err (RuntimeError.lifecycle LifecycleError.invalid_transition)
    retire_request-quarantine operation failure q p ps b last kept =
        let s = b.slots m slot there in
        let fits = reserved-request slot s r request held in
        let f = finishing m r slot request rt b there held in
        let (charged, h) =
          checked_add_footprint_ok request.backend_footprint request.workspace_footprint
            (λ k. omega (arith, fits k, s.wide k)) in
        let (left, h') = checked_sub_footprint_ok slot.reserved_footprint charged (λ k. omega (
          arith,
          fits k,
          part-checked_add_footprint k request.backend_footprint request.workspace_footprint charged
              h,
        )) in
        let (next, h'') =
          checked_sub_footprint_ok rt.reserved_footprint request.backend_footprint
            (reserved-sequence m r slot request rt b there held) in
        retire_request-refused operation failure charged left next q p ps f h h' h''
          (ground (arith, active_positive m r slot request rt b there held)) (same_action f last)
          kept
      where
        same_action :
            (f : Finishes slot.lifecycle)
            → (finish_request slot.lifecycle).0 ≡ ok LifecycleAction.release_model
            → f.action ≡ LifecycleAction.release_model
        same_action f last =
            let e : ok f.action ≡ ok LifecycleAction.release_model = rw f.finished at last in cc

  -- In a balanced registry, the last request of a model that is being unloaded can end without a
  -- fault, its sequence destroyed, and its caller still gets an invalid lifecycle transition: that is
  -- so whenever an earlier sequence of the model is quarantined.
  pub remove_request-quarantine :
      (m r : ℕ) (operation : RuntimeOperation) (failure : FailureClass) (rt : InferenceRuntime B)
      (slot : ModelSlot B) (request : RequestSlot B) (q : ℕ) (p : PendingSequence B)
      (ps : List (ℕ × PendingSequence B))
      → IsBalanced rt
      → get rt.request_index r ≡ some m
      → get rt.models m ≡ some slot
      → get slot.requests r ≡ some request
      → (B.destroy_sequence slot.model request.sequence).0 ≡ ok tt
      → (finish_request slot.lifecycle).0 ≡ ok LifecycleAction.release_model
      → slot.pending_sequences ≡ (q, p) ∷ ps
      → (remove_request r operation failure rt).0
        ≡ err (RuntimeError.lifecycle LifecycleError.invalid_transition)
  unfolding remove_request slot_of request_model_id
  remove_request-quarantine m r operation failure rt slot request q p ps b indexed there held
        destroyed last kept =
      let s = b.slots m slot there in
      let done = B.destroy_sequence slot.model request.sequence in
      let request' = record request { sequence = done.2 } in
      let slot' = record slot { model = done.1; requests = insert r request' slot.requests } in
      let rt' = record rt { models = insert m slot' rt.models } in
      rw (indexed, there, held, destroyed)
        (retire_request-quarantine m r slot' request' rt' (get-insert_self rt.models m slot')
          (get-insert_self slot.requests r request') operation failure q p ps
          (touched m r slot request rt b there held done.1 done.2) last kept)
