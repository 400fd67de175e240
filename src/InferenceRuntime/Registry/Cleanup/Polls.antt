-- ===== src/InferenceRuntime/Registry/Cleanup/Polls.antt =====
-- `poll_cleanup` of crates/engines/inference-runtime/src/runtime.rs: the retry of a quarantined model, and the choice
-- of what to retry.
use llm_app.Prelude.{
  get-cons, Above-lt, ℕ, ◌+◌, ◌≤◌, ◌≡◌, refl, sym, ap, ◌∙◌, inl, inr, true, ltb, leb, Option, none,
  some, List, [], ◌∷◌, Result, ok, err, Option-cases, arith,
}
use llm_app.Prelude.{
  get, insert, total, total-insert, total-remove, value_in_total, get-insert_self, get-insert-none,
  get-remove-none, insert-IsAscending, remove-IsAscending, IsAscending, find_key, find_key-get,
  u32_max,
}
use llm_app.Prelude.Transactions.{succeed}
use llm_app.Contracts.Backend.{Backend}
use llm_app.Contracts.Model.{MemoryFootprint, SynchronizationError}
use llm_app.InferenceRuntime.Errors.{CleanupRetryState, CleanupPoll}
use llm_app.InferenceRuntime.Footprints.{
  Part, part, checked_sub_footprint, checked_sub_footprint_ok, part-checked_sub_footprint,
}
use llm_app.InferenceRuntime.Registry.{
  InferenceRuntime, ModelSlot, PendingSequence, PendingModel, Runtime, maximum_cleanup_attempts,
}
use llm_app.InferenceRuntime.Registry.Accounting.{IsBalanced, retained_bytes}
use llm_app.InferenceRuntime.Registry.Removal.Release.{IsSettled, FailsOrderly}
use llm_app.InferenceRuntime.Registry.Cleanup.{
  retry_outcome, retry_model, release_pending_model, pending_model_of, retry_any, retry_any_model,
  find_sequence, find_model, poll_cleanup, can_retry_sequence,
}
use llm_app.InferenceRuntime.Registry.Cleanup.Retries.{retry_sequence-IsSettled}

attempts_left :
    (n maximum : ℕ) → maximum ≤ u32_max → ltb n maximum ≡ true → leb (n + 1) u32_max ≡ true
attempts_left n maximum h l = ground arith

some_pair : {j q m r : ℕ} → ◌≡◌ {A = Option (ℕ × ℕ)} (some (j, q)) (some (m, r)) → (j ≡ m) × (q ≡ r)
some_pair e = (cc, cc)

module _ {B : Backend} where
  -- A change of the quarantined models.
  record Retains (rt rt' : InferenceRuntime B) : Type 0 where
    models : rt'.models ≡ rt.models
    quarantine_ascends : IsAscending rt'.pending_models
    apart : (j : ℕ) → get rt.pending_models j ≡ none → get rt'.pending_models j ≡ none
    workspace : rt'.reserved_generation_workspace ≡ rt.reserved_generation_workspace
    reserved :
        (k : Part)
        → part k rt'.reserved_footprint + total (retained_bytes k) rt.pending_models
          ≡ part k rt.reserved_footprint + total (retained_bytes k) rt'.pending_models
    active : rt'.active_requests ≡ rt.active_requests
    pending : rt'.pending_cleanup_sequences ≡ rt.pending_cleanup_sequences

  Retains-IsBalanced :
      (rt rt' : InferenceRuntime B) → IsBalanced rt → Retains rt rt' → IsBalanced rt'
  Retains-IsBalanced rt rt' b c =
      let same = λ (j : ℕ) (s : ModelSlot B) (h : get rt'.models j ≡ some s).
        ap (λ (x : List (ℕ × ModelSlot B)). get x j) (sym c.models) ∙ h in
      record {
        slots = λ j s h. b.slots j s (same j s h);
        models_ascend = rw c.models b.models_ascend;
        quarantine_ascends = c.quarantine_ascends;
        apart = λ j s h. c.apart j (b.apart j s (same j s h));
        reserved = λ k. rw (c.models, c.workspace) (omega (arith, c.reserved k, b.reserved k));
        active = rw (c.active, c.models) b.active;
        pending = rw (c.pending, c.models) b.pending;
        counted = rw (c.active, c.pending) b.counted;
      }

  module _ (m : ℕ) (p : PendingModel B) (rt : InferenceRuntime B) (b : IsBalanced rt)
      (held : get rt.pending_models m ≡ some p) where
    retried_model-IsBalanced :
        (p' : PendingModel B) (last : Option CleanupRetryState)
        → p'.footprint ≡ p.footprint
        → IsBalanced
            (record rt { pending_models = insert m p' rt.pending_models; last_cleanup = last })
    retried_model-IsBalanced p' last same = Retains-IsBalanced rt _ b (record {
      models = refl;
      quarantine_ascends = insert-IsAscending m p' rt.pending_models b.quarantine_ascends;
      apart = λ j g. get-insert-none rt.pending_models m j p p' b.quarantine_ascends held g;
      workspace = refl;
      reserved = λ k.
          omega (
            arith,
            ap (part k) same,
            total-insert (retained_bytes k) rt.pending_models m p p' held,
          );
      active = refl;
      pending = refl;
    })

    freed_model-IsSettled :
        (state : CleanupRetryState) (next : MemoryFootprint)
        → checked_sub_footprint rt.reserved_footprint p.footprint ≡ ok next
        → IsSettled (release_pending_model m state rt)
    unfolding release_pending_model pending_model_of
    freed_model-IsSettled state next h =
        rw (held, h)
          (record {
            balanced = Retains-IsBalanced rt _ b (record {
              models = refl;
              quarantine_ascends = remove-IsAscending m rt.pending_models b.quarantine_ascends;
              apart = λ j g. get-remove-none rt.pending_models m j b.quarantine_ascends g;
              workspace = refl;
              reserved = λ k. omega (
                arith,
                part-checked_sub_footprint k rt.reserved_footprint p.footprint next h,
                total-remove (retained_bytes k) rt.pending_models m p held,
              );
              active = refl;
              pending = refl;
            });
            orderly = tt;
          })

    release_pending_model-IsSettled :
        (state : CleanupRetryState) → IsSettled (release_pending_model m state rt)
    release_pending_model-IsSettled state =
        let (next, h) = checked_sub_footprint_ok rt.reserved_footprint p.footprint (λ k.
          omega
            (arith, b.reserved k, value_in_total (retained_bytes k) rt.pending_models m p held)) in
        freed_model-IsSettled state next h

  prepared :
      (m : ℕ) (result : Result SynchronizationError (Unit {0})) (state : CleanupRetryState)
      (p : PendingModel B) (rt : InferenceRuntime B)
      → IsBalanced rt
      → get rt.pending_models m ≡ some p
      → IsSettled (
          (elim result as (λ (x : Result SynchronizationError (Unit {0})). Runtime B CleanupPoll) [
            | err e ↦ succeed (retry_outcome state)
            | ok done ↦ release_pending_model m state
          ])
            rt)
  prepared m (err e) state p rt b held = record { balanced = b; orderly = tt }
  prepared m (ok done) state p rt b held = release_pending_model-IsSettled m p rt b held state

  retry_model-IsSettled :
      (m : ℕ) (p : PendingModel B) (rt : InferenceRuntime B)
      → IsBalanced rt
      → get rt.pending_models m ≡ some p
      → leb (p.attempts + 1) u32_max ≡ true
      → IsSettled (retry_model m rt)
  unfolding retry_model pending_model_of
  retry_model-IsSettled m p rt b held one =
      rw (held, one)
        (prepared m (B.prepare_unload p.model).0 _ _ _
          (retried_model-IsBalanced m p rt b held _ _ refl) (get-insert_self rt.pending_models m _))

  find_sequence-get :
      (maximum : ℕ) (models : List (ℕ × ModelSlot B)) (m r : ℕ)
      → IsAscending models
      → ((j : ℕ) (s : ModelSlot B) → get models j ≡ some s → IsAscending s.pending_sequences)
      → find_sequence maximum models ≡ some (m, r)
      → (slot : ModelSlot B) × (get models m ≡ some slot)
        × (p : PendingSequence B) × (get slot.pending_sequences r ≡ some p)
        × (can_retry_sequence maximum p ≡ true)
  unfolding find_sequence
  find_sequence-get maximum [] m r a s h = absurd (ground arith)
  find_sequence-get maximum ((j, slot) ∷ models) m r a s h =
      let key = find_key (can_retry_sequence maximum) slot.pending_sequences in
      elim (Option-cases key) [
        | inr (q, f) ↦
            let e : ◌≡◌ {A = Option (ℕ × ℕ)} (some (j, q)) (some (m, r)) = sym (rw f refl) ∙ h in
            let here : get ((j, slot) ∷ models) j ≡ some slot = ground arith in
            let (p, there, passes) =
              find_key-get (can_retry_sequence maximum) slot.pending_sequences q (s j slot here)
                f in
            (
              slot,
              ground (arith, (some_pair e).0),
              p,
              ground (arith, (some_pair e).1, there),
              passes,
            )
        | inl f ↦
            let later : find_sequence maximum models ≡ some (m, r) = sym (rw f refl) ∙ h in
            let up = λ (i : ℕ) (t : ModelSlot B) (g : get models i ≡ some t).
              get-cons j i slot t models (Above-lt j i t models a.0 g) g in
            let (slot', there, p, held, passes) =
              find_sequence-get maximum models m r a.1 (λ i t g. s i t (up i t g)) later in
            (slot', up m slot' there, p, held, passes)
      ]

  retry_any_model-IsSettled :
      (rt : InferenceRuntime B) (o : Option ℕ)
      → IsBalanced rt
      → rt.limits.cleanup_maximum_attempts ≤ u32_max
      → find_model (maximum_cleanup_attempts rt) rt.pending_models ≡ o
      → IsSettled (retry_any_model o rt)
  unfolding retry_any_model find_model
  retry_any_model-IsSettled rt none b small h = record { balanced = b; orderly = tt }
  retry_any_model-IsSettled rt (some m) b small h =
      let (p, there, passes) = find_key-get _ rt.pending_models m b.quarantine_ascends h in
      retry_model-IsSettled m p rt b there
        (attempts_left p.attempts rt.limits.cleanup_maximum_attempts small passes)

  retry_any-IsSettled :
      (rt : InferenceRuntime B) (o : Option (ℕ × ℕ))
      → IsBalanced rt
      → rt.limits.cleanup_maximum_attempts ≤ u32_max
      → find_sequence (maximum_cleanup_attempts rt) rt.models ≡ o
      → IsSettled (retry_any o rt)
  unfolding retry_any
  retry_any-IsSettled rt none b small h = retry_any_model-IsSettled rt _ b small refl
  retry_any-IsSettled rt (some (m, r)) b small h =
      let (slot, there, p, held, passes) =
        find_sequence-get (maximum_cleanup_attempts rt) rt.models m r b.models_ascend
          (λ j s g. (b.slots j s g).pending_ascend) h in
      retry_sequence-IsSettled m r slot p rt b there held
        (attempts_left p.attempts rt.limits.cleanup_maximum_attempts small passes)

  -- Whatever the backend answers, one poll of the cleanup keeps the accounts of a balanced registry
  -- balanced, and a failure is one of the orderly ones. The maximum of attempts is a `u32`.
  pub poll_cleanup-IsBalanced :
      (rt : InferenceRuntime B)
      → IsBalanced rt
      → rt.limits.cleanup_maximum_attempts ≤ u32_max
      → IsBalanced (poll_cleanup rt).1 × FailsOrderly (poll_cleanup rt).0
  unfolding poll_cleanup
  poll_cleanup-IsBalanced rt b small =
      let settled = retry_any-IsSettled rt _ b small refl in (settled.balanced, settled.orderly)
