-- ===== src/InferenceRuntime/Registry/Cleanup/Retries.antt =====
-- `poll_cleanup` of crates/engines/inference-runtime/src/runtime.rs keeps the accounts, whatever the backend answers.
use llm_app.Prelude.{
  get-remove-none, get-insert-none, ℕ, ◌+◌, ◌≤◌, ◌≡◌, refl, sym, ap, inl, inr, Bool, true, false,
  leb, Option, some, Result, ok, err, Bool-cases, arith,
}
use llm_app.Prelude.{
  get, insert, remove, total-insert, total-remove, value_in_total, length-remove,
  length-insert_self, get-insert_self, insert-insert, insert-IsAscending, remove-IsAscending,
  u32_max,
}
use llm_app.Contracts.Backend.{Backend}
use llm_app.Prelude.Transactions.{succeed}
use llm_app.Contracts.Model.{MemoryFootprint, SequenceError}
use llm_app.InferenceRuntime.Errors.{
  RuntimeError, RuntimeOperation, FailureClass, CleanupRetryState, CleanupPoll,
}
use llm_app.InferenceRuntime.Footprints.{
  Part, part, checked_sub_footprint, checked_sub_footprint_ok, part-checked_sub_footprint,
}
use llm_app.InferenceRuntime.Registry.{
  InferenceRuntime, ModelSlot, PendingSequence, Runtime, slot_of, succeed,
}
use llm_app.InferenceRuntime.Registry.Accounting.{
  IsBalanced, SlotIsBalanced, Replaces-IsBalanced, owned_bytes, quarantined_bytes, pending_of,
}
use llm_app.InferenceRuntime.Registry.Removal.Release.{
  IsSettled, FailsOrderly, release_model_with_primary-IsSettled,
}
use llm_app.InferenceRuntime.Registry.Execution.{is_cleanup_error}
use llm_app.InferenceRuntime.Registry.Cleanup.{
  retry_outcome, release_outcome, release_after, release_sequence, retry_sequence,
}

release_outcome-FailsOrderly :
    (state : CleanupRetryState) (r : Result RuntimeError (Unit {0}))
    → FailsOrderly r
    → FailsOrderly (release_outcome state r)
release_outcome-FailsOrderly state (ok done) h = tt
release_outcome-FailsOrderly state (err e) h = elim (Bool-cases (is_cleanup_error e)) [
  | inl c ↦ rw c tt
  | inr c ↦ rw c h
]

module _ {B : Backend} where
  release_after-IsSettled :
      (release : Bool) (m : ℕ) (operation : RuntimeOperation) (failure : FailureClass)
      (state : CleanupRetryState) (rt : InferenceRuntime B)
      → IsBalanced rt
      → IsSettled (
          (elim release as (λ (x : Bool). Runtime B CleanupPoll) [
            | true ↦ release_after m operation failure state
            | false ↦ succeed (CleanupPoll.released state)
          ])
            rt)
  unfolding release_after
  release_after-IsSettled false m operation failure state rt b = record {
    balanced = b;
    orderly = tt;
  }
  release_after-IsSettled true m operation failure state rt b =
      let released = release_model_with_primary-IsSettled m operation failure rt b in
      record {
        balanced = released.balanced;
        orderly = release_outcome-FailsOrderly state _ released.orderly;
      }

  module _ (m r : ℕ) (slot : ModelSlot B) (p : PendingSequence B) (rt : InferenceRuntime B)
      (b : IsBalanced rt) (there : get rt.models m ≡ some slot)
      (held : get slot.pending_sequences r ≡ some p) where
    pending_positive : 1 ≤ rt.pending_cleanup_sequences
    pending_positive = omega (
      arith,
      b.pending,
      value_in_total pending_of rt.models m slot there,
      length-remove slot.pending_sequences r p held,
    )

    reserved-pending : (k : Part) → part k p.footprint ≤ part k rt.reserved_footprint
    reserved-pending k = omega (
      arith,
      b.reserved k,
      value_in_total (owned_bytes k) rt.models m slot there,
      value_in_total (quarantined_bytes k) slot.pending_sequences r p held,
    )

    slot_reserved-pending : (k : Part) → part k p.footprint ≤ part k slot.reserved_footprint
    slot_reserved-pending k = omega (
      arith,
      (b.slots m slot there).reserved k,
      value_in_total (quarantined_bytes k) slot.pending_sequences r p held,
    )

    -- The slot without the sequence, once the backend has destroyed it.
    freed-SlotIsBalanced :
        (left : MemoryFootprint) (poisoned : Bool)
        → checked_sub_footprint slot.reserved_footprint p.footprint ≡ ok left
        → SlotIsBalanced (record slot {
          pending_sequences = remove r slot.pending_sequences;
          reserved_footprint = left;
          poisoned = poisoned;
        })
    freed-SlotIsBalanced left poisoned h =
        let s = b.slots m slot there in
        let bytes =
          λ (k : Part). part-checked_sub_footprint k slot.reserved_footprint p.footprint left h in
        record {
          reserved = λ k. omega (
            arith,
            bytes k,
            s.reserved k,
            total-remove (quarantined_bytes k) slot.pending_sequences r p held,
          );
          wide = λ k. omega (arith, bytes k, s.wide k);
          counted = s.counted;
          requests_ascend = s.requests_ascend;
          pending_ascend = remove-IsAscending r slot.pending_sequences s.pending_ascend;
          apart =
              λ j v g. get-remove-none slot.pending_sequences r j s.pending_ascend (s.apart j v g);
        }

    freed-IsSettled :
        (state : CleanupRetryState) (left next : MemoryFootprint)
        → checked_sub_footprint slot.reserved_footprint p.footprint ≡ ok left
        → checked_sub_footprint rt.reserved_footprint p.footprint ≡ ok next
        → leb 1 rt.pending_cleanup_sequences ≡ true
        → IsSettled (release_sequence m r state rt)
    unfolding release_sequence slot_of
    freed-IsSettled state left next h h' one =
        rw (there, held, h, insert-insert m, one, h')
          (release_after-IsSettled _ m _ _ state _ (
            Replaces-IsBalanced m slot _ rt _ b (record {
              there = there;
              balanced = freed-SlotIsBalanced left _ h;
              models = refl;
              pending_models = refl;
              workspace = refl;
              reserved = λ k. omega (
                arith,
                part-checked_sub_footprint k rt.reserved_footprint p.footprint next h',
                total-remove (quarantined_bytes k) slot.pending_sequences r p held,
              );
              active = refl;
              pending =
                  omega (arith, pending_positive, length-remove slot.pending_sequences r p held);
              counted = omega (arith, b.counted);
            })))

    release_sequence-IsSettled :
        (state : CleanupRetryState) → IsSettled (release_sequence m r state rt)
    release_sequence-IsSettled state =
        let (left, h) =
          checked_sub_footprint_ok slot.reserved_footprint p.footprint slot_reserved-pending in
        let (next, h') =
          checked_sub_footprint_ok rt.reserved_footprint p.footprint reserved-pending in
        freed-IsSettled state left next h h' (ground (arith, pending_positive))

    -- The backend's further attempt to destroy the sequence changes no account.
    retried-SlotIsBalanced :
        (model : B.Model) (p' : PendingSequence B)
        → p'.footprint ≡ p.footprint
        → SlotIsBalanced
            (record slot { model = model; pending_sequences = insert r p' slot.pending_sequences })
    retried-SlotIsBalanced model p' same =
        let s = b.slots m slot there in
        record {
          reserved = λ k. omega (
            arith,
            ap (part k) same,
            s.reserved k,
            total-insert (quarantined_bytes k) slot.pending_sequences r p p' held,
          );
          wide = s.wide;
          counted = s.counted;
          requests_ascend = s.requests_ascend;
          pending_ascend = insert-IsAscending r p' slot.pending_sequences s.pending_ascend;
          apart = λ j v g.
              get-insert-none slot.pending_sequences r j p p' s.pending_ascend held (s.apart j v g);
        }

    retried-IsBalanced :
        (model : B.Model) (p' : PendingSequence B) (last : Option CleanupRetryState)
        → p'.footprint ≡ p.footprint
        → IsBalanced (record rt {
          models =
              insert m
                (record slot {
                  model = model;
                  pending_sequences = insert r p' slot.pending_sequences;
                })
                rt.models;
          last_cleanup = last;
        })
    retried-IsBalanced model p' last same = Replaces-IsBalanced m slot _ rt _ b (record {
      there = there;
      balanced = retried-SlotIsBalanced model p' same;
      models = refl;
      pending_models = refl;
      workspace = refl;
      reserved = λ k. omega (
        arith,
        ap (part k) same,
        total-insert (quarantined_bytes k) slot.pending_sequences r p p' held,
      );
      active = refl;
      pending =
          ap (λ (n : ℕ). rt.pending_cleanup_sequences + n)
            (sym (length-insert_self slot.pending_sequences r p p' held));
      counted = b.counted;
    })

  retried :
      (m r : ℕ) (destroyed : Result SequenceError (Unit {0})) (state : CleanupRetryState)
      (slot : ModelSlot B) (p : PendingSequence B) (rt : InferenceRuntime B)
      → IsBalanced rt
      → get rt.models m ≡ some slot
      → get slot.pending_sequences r ≡ some p
      → IsSettled (
          (elim destroyed as (λ (x : Result SequenceError (Unit {0})). Runtime B CleanupPoll) [
            | err e ↦ succeed (retry_outcome state)
            | ok done ↦ release_sequence m r state
          ])
            rt)
  retried m r (err e) state slot p rt b there held = record { balanced = b; orderly = tt }
  retried m r (ok done) state slot p rt b there held =
      release_sequence-IsSettled m r slot p rt b there held state

  pub retry_sequence-IsSettled :
      (m r : ℕ) (slot : ModelSlot B) (p : PendingSequence B) (rt : InferenceRuntime B)
      → IsBalanced rt
      → get rt.models m ≡ some slot
      → get slot.pending_sequences r ≡ some p
      → leb (p.attempts + 1) u32_max ≡ true
      → IsSettled (retry_sequence m r rt)
  unfolding retry_sequence slot_of
  retry_sequence-IsSettled m r slot p rt b there held one =
      let destroyed = B.destroy_sequence slot.model p.sequence in
      rw (there, held, one)
        (retried m r destroyed.0 _ _ _ _
          (retried-IsBalanced m r slot p rt b there held destroyed.1 _ _ refl)
          (get-insert_self rt.models m _) (get-insert_self slot.pending_sequences r _))
