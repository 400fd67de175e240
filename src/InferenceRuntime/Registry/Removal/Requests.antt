-- ===== src/InferenceRuntime/Registry/Removal/Requests.antt =====
-- The end of a request (`remove_request` of crates/engines/inference-runtime/src/runtime.rs) keeps the accounts,
-- whatever the backend answers.
use llm_app.Prelude.{ℕ, ◌≡◌, refl, some, Option-cases, inl, inr, length-insert_self}
use llm_app.Prelude.{get, insert, get-insert_self}
use llm_app.Contracts.Backend.{Backend}
use llm_app.InferenceRuntime.Errors.{RuntimeOperation, FailureClass}
use llm_app.InferenceRuntime.Registry.{
  RequestSlot, ModelSlot, InferenceRuntime, slot_of, request_model_id,
}
use llm_app.InferenceRuntime.Registry.Accounting.{IsBalanced}
use llm_app.InferenceRuntime.Registry.Accounting.Drops.{put-IsBalanced}
use llm_app.InferenceRuntime.Registry.Accounting.Slots.{
  sequence-SlotIsBalanced, sequence-owned_bytes,
}
use llm_app.InferenceRuntime.Registry.Removal.{remove_request}
use llm_app.InferenceRuntime.Registry.Removal.Release.{IsSettled, FailsOrderly}
use llm_app.InferenceRuntime.Registry.Removal.Endings.{removed}

module _ {B : Backend} where
  -- The backend's attempt to destroy a sequence changes no account.
  pub touched :
      (m r : ℕ) (slot : ModelSlot B) (request : RequestSlot B) (rt : InferenceRuntime B)
      → IsBalanced rt
      → get rt.models m ≡ some slot
      → get slot.requests r ≡ some request
      → (model : B.Model) (sequence : B.Sequence)
      → IsBalanced (record rt {
        models =
            insert m
              (record slot {
                model = model;
                requests = insert r (record request { sequence = sequence }) slot.requests;
              })
              rt.models;
      })
  touched m r slot request rt b there held model sequence =
      let s = b.slots m slot there in
      let request' = record request { sequence = sequence } in
      put-IsBalanced m slot _ rt b there
        (sequence-SlotIsBalanced slot s r request held model request' refl refl)
        (λ k. sequence-owned_bytes slot s r request held model request' k refl)
        (length-insert_self slot.requests r request request' held) refl

  remove_request-IsSettled :
      (r : ℕ) (operation : RuntimeOperation) (failure : FailureClass) (rt : InferenceRuntime B)
      → IsBalanced rt
      → IsSettled (remove_request r operation failure rt)
  unfolding remove_request slot_of request_model_id
  remove_request-IsSettled r operation failure rt b = elim (Option-cases (get rt.request_index r)) [
    | inl unknown ↦ rw unknown (record { balanced = b; orderly = refl })
    | inr (m, indexed) ↦ elim (Option-cases (get rt.models m)) [
      | inl missing ↦ rw (indexed, missing) (record { balanced = b; orderly = refl })
      | inr (slot, there) ↦ elim (Option-cases (get slot.requests r)) [
        | inl absent ↦ rw (indexed, there, absent) (record { balanced = b; orderly = refl })
        | inr (request, held) ↦
            let destroyed = B.destroy_sequence slot.model request.sequence in
            let request' = record request { sequence = destroyed.2 } in
            let slot' = record slot {
              model = destroyed.1;
              requests = insert r request' slot.requests;
            } in
            let rt' = record rt { models = insert m slot' rt.models } in
            let b' = touched m r slot request rt b there held destroyed.1 destroyed.2 in
            rw (indexed, there, held)
              (removed m r slot' request' rt' b' (get-insert_self rt.models m slot')
                (get-insert_self slot.requests r request') destroyed.0 operation failure)
      ]
    ]
  ]

  -- Whatever request is ended, for whatever reason and whatever the backend answers, a registry with
  -- balanced accounts keeps them balanced, and a failure is one of the orderly ones: no memory
  -- arithmetic overflows or underflows and no contract of the backend is reported as violated.
  pub remove_request-IsBalanced :
      (r : ℕ) (operation : RuntimeOperation) (failure : FailureClass) (rt : InferenceRuntime B)
      → IsBalanced rt
      → IsBalanced (remove_request r operation failure rt).1
        × FailsOrderly (remove_request r operation failure rt).0
  remove_request-IsBalanced r operation failure rt b =
      let settled = remove_request-IsSettled r operation failure rt b in
      (settled.balanced, settled.orderly)
