-- ===== src/InferenceRuntime/Registry/Removal/Release.antt =====
-- The release of a model (`release_model_with_primary` of crates/engines/inference-runtime/src/runtime.rs) keeps
-- the accounts, whatever the backend answers.
use llm_app.Prelude.{
  ℕ, ◌≤◌, ◌≡◌, refl, inl, inr, Bool, true, false, ◌&&◌, some, List, [], Result, ok, err, Bool-cases,
  Option-cases, Result-cases, arith, total-remove, insert-IsAscending, remove-insert,
}
use llm_app.Prelude.{get, insert, total-insert_new, get-insert_self, get-insert_ne}
use llm_app.Contracts.Lifecycle.{LifecycleError, ModelLifecycleState}
use llm_app.Contracts.Lifecycle.Owner.{complete_unload-unloading}
use llm_app.Contracts.Model.{SynchronizationError, footprint_eq}
use llm_app.Contracts.Backend.{Backend}
use llm_app.InferenceRuntime.Errors.{
  RuntimeError, RuntimeOperation, FailureClass, CleanupRetryState,
}
use llm_app.InferenceRuntime.Footprints.{
  Part, part, checked_sub_footprint_ok, part-checked_sub_footprint,
}
use llm_app.InferenceRuntime.Registry.{
  ModelSlot, InferenceRuntime, cleanup_retention_error, slot_of, transition, RequestSlot,
  PendingSequence,
}
use llm_app.InferenceRuntime.Registry.Accounting.{IsBalanced, owned_bytes, retained_bytes}
use llm_app.InferenceRuntime.Registry.Accounting.Drops.{
  model-SlotIsBalanced, put-IsBalanced, Drops-IsBalanced,
}
use llm_app.InferenceRuntime.Registry.Removal.{
  quarantine_model, discard_model, release_model_with_primary, is_releasable, is_empty,
  is_unloading,
}

-- The ways in which a removal fails: its request or its model is not there, the backend kept the
-- resource, or the model cannot be released yet.
abbrev pub is_removal_error : RuntimeError → Bool
is_removal_error (RuntimeError.request_not_active n) = true
is_removal_error (RuntimeError.model_not_loaded n) = true
is_removal_error (RuntimeError.cleanup_failed report) = true
is_removal_error (RuntimeError.cleanup_retry_exhausted s) = true
is_removal_error (RuntimeError.lifecycle LifecycleError.invalid_transition) = true
is_removal_error _ = false

abbrev pub FailsOrderly {ℓ} : {A : Type ℓ} → Result RuntimeError A → Type 0
FailsOrderly (ok a) = Unit
FailsOrderly (err e) = is_removal_error e ≡ true

pub cleanup_retention_error-is_removal_error :
    (s : CleanupRetryState) → is_removal_error (cleanup_retention_error s) ≡ true
unfolding cleanup_retention_error
cleanup_retention_error-is_removal_error s = ground arith

module _ {B : Backend} where
  pub record IsSettled {A : Type 0} (outcome : Result RuntimeError A × InferenceRuntime B)
      : Type 0 where
    pub balanced : IsBalanced outcome.1
    pub orderly : FailsOrderly outcome.0

  quarantine_model-IsSettled :
      (m : ℕ) (operation : RuntimeOperation) (failure : FailureClass)
      (cleanup : SynchronizationError) (slot : ModelSlot B) (rt : InferenceRuntime B)
      → IsBalanced rt
      → get rt.models m ≡ some slot
      → slot.requests ≡ []
      → slot.pending_sequences ≡ []
      → IsSettled (quarantine_model m operation failure cleanup rt)
  unfolding quarantine_model slot_of
  quarantine_model-IsSettled m operation failure cleanup slot rt b there idle settled =
      rw there (record {
        balanced = Drops-IsBalanced m slot rt _ b (record {
          there = there;
          models = refl;
          quarantine_ascends = insert-IsAscending m _ rt.pending_models b.quarantine_ascends;
          pending_models = λ j n. get-insert_ne j m _ rt.pending_models b.quarantine_ascends n;
          workspace = refl;
          reserved = λ k.
              rw (idle, settled)
                (omega (
                  arith,
                  total-insert_new (retained_bytes k) rt.pending_models m _ (b.apart m slot there),
                ));
          idle = rw idle refl;
          settled = rw settled refl;
          active = refl;
          pending = refl;
        });
        orderly = cleanup_retention_error-is_removal_error _;
      })

  -- What a model without sequences and requests reserves is what it was admitted with.
  idle_footprint :
      (slot : ModelSlot B) (rt : InferenceRuntime B) (m : ℕ) (k : Part)
      → IsBalanced rt
      → get rt.models m ≡ some slot
      → slot.requests ≡ []
      → slot.pending_sequences ≡ []
      → part k slot.model_footprint ≤ part k rt.reserved_footprint
  idle_footprint slot rt m k b there idle settled =
      omega (arith, b.reserved k, total-remove (owned_bytes k) rt.models m slot there)

  discard_model-IsSettled :
      (m : ℕ) (slot : ModelSlot B) (rt : InferenceRuntime B)
      → IsBalanced rt
      → get rt.models m ≡ some slot
      → slot.requests ≡ []
      → slot.pending_sequences ≡ []
      → slot.lifecycle.state ≡ ModelLifecycleState.unloading
      → IsSettled (discard_model m rt)
  unfolding discard_model slot_of transition
  discard_model-IsSettled m slot rt b there idle settled unloading =
      let (next, fits) =
        checked_sub_footprint_ok rt.reserved_footprint slot.model_footprint
          (λ k. idle_footprint slot rt m k b there idle settled) in
      rw
        (
          there,
          complete_unload-unloading slot.lifecycle unloading,
          get-insert_self rt.models m,
          remove-insert m _ rt.models,
          fits,
        )
        (record {
          balanced = Drops-IsBalanced m slot rt _ b (record {
            there = there;
            models = refl;
            quarantine_ascends = b.quarantine_ascends;
            pending_models = λ j n. refl;
            workspace = refl;
            reserved = λ k.
                rw (idle, settled)
                  (omega (
                    arith,
                    part-checked_sub_footprint k rt.reserved_footprint slot.model_footprint next
                        fits,
                  ));
            idle = rw idle refl;
            settled = rw settled refl;
            active = refl;
            pending = refl;
          });
          orderly = tt;
        })

  is_releasable-empty :
      (slot : ModelSlot B)
      → is_releasable slot ≡ true
      → (slot.requests ≡ [])
        × (slot.pending_sequences ≡ [])
        × (slot.lifecycle.state ≡ ModelLifecycleState.unloading)
  is_releasable-empty slot h =
      releasable slot.requests slot.pending_sequences slot.lifecycle.state
        (footprint_eq slot.reserved_footprint slot.model_footprint) h
    where
      releasable :
          (requests : List (ℕ × RequestSlot B)) (sequences : List (ℕ × PendingSequence B))
          (state : ModelLifecycleState) (same : Bool)
          → (is_empty requests && is_empty sequences && is_unloading state && same) ≡ true
          → (requests ≡ []) × (sequences ≡ []) × (state ≡ ModelLifecycleState.unloading)
      releasable [] [] ModelLifecycleState.unloading same h = (refl, refl, refl)
      releasable requests sequences state same h = absurd (ground arith)

  -- The release of any model keeps the registry's accounts and fails only in the orderly ways.
  pub release_model_with_primary-IsSettled :
      (m : ℕ) (operation : RuntimeOperation) (failure : FailureClass) (rt : InferenceRuntime B)
      → IsBalanced rt
      → IsSettled (release_model_with_primary m operation failure rt)
  unfolding release_model_with_primary slot_of
  release_model_with_primary-IsSettled m operation failure rt b =
      elim (Option-cases (get rt.models m)) [
        | inl missing ↦ rw missing (record { balanced = b; orderly = refl })
        | inr (slot, there) ↦ elim (Bool-cases (is_releasable slot)) [
          | inr kept ↦ rw (there, kept) (record { balanced = b; orderly = refl })
          | inl ready ↦
              let (idle, settled, unloading) = is_releasable-empty slot ready in
              let prepared = B.prepare_unload slot.model in
              let slot' = record slot { model = prepared.1 } in
              let rt' = record rt { models = insert m slot' rt.models } in
              let b' =
                put-IsBalanced m slot slot' rt b there
                  (model-SlotIsBalanced slot prepared.1 (b.slots m slot there)) (λ k. refl) refl
                  refl in
              let there' = get-insert_self rt.models m slot' in
              elim (Result-cases prepared.0) [
                | inl (cleanup, h) ↦
                    rw (there, ready, h)
                      (quarantine_model-IsSettled m operation failure cleanup slot' rt' b' there'
                        idle settled)
                | inr (done, h) ↦
                    rw (there, ready, h)
                      (discard_model-IsSettled m slot' rt' b' there' idle settled unloading)
              ]
        ]
      ]
