-- ===== src/Contracts/Backend/Tests.antt =====
-- The checked operations of crates/features/domain-contracts/src/backend.rs over a small backend.
use llm_app.Contracts.Backend.{
  CancellationStatus, PrefillInput, PrefillOutcome, prefill_checked, decode_checked, prepare,
}
use llm_app.Prelude.{ℕ, ◌≡◌, refl, true, List, [], ◌∷◌, ok, err}
use llm_app.Contracts.Capacity.{CapacityResource, CapacityExhausted}
use llm_app.Contracts.Model.{SequenceError, ModelHandle}
use llm_app.Contracts.Backend.{Backend, FinishReason}
use llm_app.Contracts.Backend.Outcomes.{
  PrefillIsExplained, DecodeIsExplained, left, Leaves, prefill_attempt, decode_attempt,
}
use llm_app.Contracts.Backend.Checked.{checked-IsExplained}
use llm_app.InferenceRuntime.Examples.{toy, handle_1}

abbrev input : PrefillInput
input = record { tokens = 3 ∷ 4 ∷ []; emit_logits = true }

abbrev logits : List ℕ
logits = 0 ∷ 0 ∷ 0 ∷ 0 ∷ 0 ∷ 0 ∷ 0 ∷ 0 ∷ []

prefilled :
    (prefill_checked toy handle_1 5 input logits CancellationStatus.running).0
    ≡ ok (PrefillOutcome.ready 2 1 8)
unfolding prefill_checked prepare
prefilled = refl

-- A backend that has no room for a prefill, and asks for the end of a sequence by its error.
abbrev exhausted : CapacityExhausted
exhausted = record { resource = CapacityResource.tokens; required = 2; available = 1 }

abbrev full : Backend
full = record toy {
  prefill_prepared = λ model sequence input buffer required.
      (err (SequenceError.capacity_exhausted exhausted), model, sequence, buffer);
  decode_prepared = λ model sequence token buffer required.
      (err SequenceError.unsupported, model, sequence, buffer);
}

ended :
    (prefill_checked full handle_1 5 input logits CancellationStatus.running).0
    ≡ ok (PrefillOutcome.finished (FinishReason.buffer_exhausted exhausted))
unfolding prefill_checked prepare
ended = refl

failed :
    (decode_checked full handle_1 5 3 logits CancellationStatus.running).0
    ≡ err SequenceError.unsupported
unfolding decode_checked prepare
failed = refl

checked-IsExplained_example :
    (PrefillIsExplained
        (prefill_attempt full handle_1 5 logits CancellationStatus.running input)
        (prefill_checked full handle_1 5 input logits CancellationStatus.running).0
      × Leaves {A = ModelHandle × ℕ × List ℕ}
          (prefill_attempt full handle_1 5 logits CancellationStatus.running input)
          (handle_1, 5, logits)
          (handle_1, 5, logits)
          (left (prefill_checked full handle_1 5 input logits CancellationStatus.running)))
    × (DecodeIsExplained
          (decode_attempt full handle_1 5 logits CancellationStatus.running 3)
          (decode_checked full handle_1 5 3 logits CancellationStatus.running).0
        × Leaves {A = ModelHandle × ℕ × List ℕ}
            (decode_attempt full handle_1 5 logits CancellationStatus.running 3)
            (handle_1, 5, logits)
            (handle_1, 5, logits)
            (left (decode_checked full handle_1 5 3 logits CancellationStatus.running)))
checked-IsExplained_example =
    checked-IsExplained full handle_1 5 logits CancellationStatus.running input 3
