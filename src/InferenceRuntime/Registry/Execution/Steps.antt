-- ===== src/InferenceRuntime/Registry/Execution/Steps.antt =====
-- `prefill` and `decode` of crates/engines/inference-runtime/src/runtime.rs keep the accounts, whatever the backend
-- answers.
use llm_app.Prelude.{
  ℕ, ◌≡◌, refl, inl, inr, Bool, true, false, some, List, [], Result, ok, err, Bool-cases,
  Option-cases, arith,
}
use llm_app.Prelude.{get, length-insert_self}
use llm_app.Prelude.Transactions.{continue}
use llm_app.Contracts.Model.{SequenceError}
use llm_app.Contracts.Backend.{
  Backend, CancellationStatus, GenerationUsage, PrefillInput, PrefillOutcome, DecodeOutcome,
  prefill_checked, decode_checked,
}
use llm_app.Contracts.Backend.Faults.{FailsOnFault, checked-FailsOnFault}
use llm_app.Contracts.Backend.Outcomes.{is_fault}
use llm_app.InferenceRuntime.Errors.{RuntimeError, RuntimeOperation, FailureClass}
use llm_app.InferenceRuntime.Registry.{InferenceRuntime, ModelSlot, RequestSlot}
use llm_app.InferenceRuntime.Registry.Accounting.{IsBalanced}
use llm_app.InferenceRuntime.Registry.Accounting.Drops.{put-IsBalanced}
use llm_app.InferenceRuntime.Registry.Accounting.Slots.{
  sequence-SlotIsBalanced, sequence-owned_bytes,
}
use llm_app.InferenceRuntime.Registry.Removal.Release.{is_removal_error, FailsOrderly}
use llm_app.InferenceRuntime.Registry.Removal.Requests.{remove_request-IsBalanced}
use llm_app.InferenceRuntime.Registry.{slot_of, request_model_id}
use llm_app.InferenceRuntime.Registry.Execution.{
  prefill_found, decode_found, prefill, decode, is_cleanup_error, preserve_primary_cleanup,
  find_request, end_request, conclude_prefill, conclude_decode, advanced, prefill, decode,
  prefill_usage, decode_usage,
}

abbrev no_input : PrefillInput
no_input = record { tokens = []; emit_logits = false }

-- The ways in which an operation on a request fails: like a removal, or with a fault of the backend.
abbrev pub is_execution_error : RuntimeError → Bool
is_execution_error (RuntimeError.sequence e) = is_fault e
is_execution_error e = is_removal_error e

abbrev pub FailsExecution {ℓ} : {A : Type ℓ} → Result RuntimeError A → Type 0
FailsExecution (ok a) = Unit
FailsExecution (err e) = is_execution_error e ≡ true

removal-execution : (e : RuntimeError) → is_removal_error e ≡ true → is_execution_error e ≡ true
removal-execution (RuntimeError.sequence e) h = absurd (ground arith)
removal-execution _ h = h

preserve_primary_cleanup-FailsOrderly :
    (r : Result RuntimeError (Unit {0}))
    → FailsOrderly r
    → FailsOrderly (preserve_primary_cleanup r)
preserve_primary_cleanup-FailsOrderly (ok done) h = tt
preserve_primary_cleanup-FailsOrderly (err e) h = elim (Bool-cases (is_cleanup_error e)) [
  | inl c ↦ rw c tt
  | inr c ↦ rw c h
]

module _ {B : Backend} where
  -- What an operation leaves: balanced accounts, and a failure of the expected kind.
  abbrev pub IsExecuted : {A : Type 0} → Result RuntimeError A × InferenceRuntime B → Type 0
  IsExecuted outcome = IsBalanced outcome.1 × FailsExecution outcome.0

  end_request-IsBalanced :
      (r : ℕ) (operation : RuntimeOperation) (failure : FailureClass) (rt : InferenceRuntime B)
      → IsBalanced rt
      → IsBalanced (end_request r operation failure rt).1
        × FailsOrderly (end_request r operation failure rt).0
  unfolding end_request
  end_request-IsBalanced r operation failure rt b =
      let (balanced, orderly) = remove_request-IsBalanced r operation failure rt b in
      (balanced, preserve_primary_cleanup-FailsOrderly _ orderly)

  continue-IsExecuted :
      {A : Type 0} (next : Result RuntimeError A) (ended : Result RuntimeError (Unit {0}))
      (rt : InferenceRuntime B)
      → IsBalanced rt
      → FailsOrderly ended
      → FailsExecution next
      → IsExecuted (continue (λ (x : Unit {0}) (s : InferenceRuntime B). (next, s)) ended rt)
  continue-IsExecuted next (ok done) rt b orderly fails = (b, fails)
  continue-IsExecuted next (err e) rt b orderly fails = (b, removal-execution e orderly)

  conclude_prefill-IsExecuted :
      (r : ℕ) (result : Result SequenceError PrefillOutcome) (usage : GenerationUsage)
      (rt : InferenceRuntime B)
      → IsBalanced rt
      → FailsOnFault result
      → IsExecuted (conclude_prefill r result usage rt)
  unfolding conclude_prefill
  conclude_prefill-IsExecuted r (ok (PrefillOutcome.ready consumed position written)) usage rt b h =
      (b, tt)
  conclude_prefill-IsExecuted r (ok (PrefillOutcome.finished reason)) usage rt b h =
      let (balanced, orderly) = end_request-IsBalanced r _ _ rt b in
      continue-IsExecuted _ _ _ balanced orderly tt
  conclude_prefill-IsExecuted r (err e) usage rt b h =
      let (balanced, orderly) = end_request-IsBalanced r _ _ rt b in
      continue-IsExecuted _ _ _ balanced orderly h

  conclude_decode-IsExecuted :
      (r : ℕ) (result : Result SequenceError DecodeOutcome) (usage : GenerationUsage)
      (rt : InferenceRuntime B)
      → IsBalanced rt
      → FailsOnFault result
      → IsExecuted (conclude_decode r result usage rt)
  unfolding conclude_decode
  conclude_decode-IsExecuted r (ok (DecodeOutcome.ready position written)) usage rt b h = (b, tt)
  conclude_decode-IsExecuted r (ok (DecodeOutcome.finished reason)) usage rt b h =
      let (balanced, orderly) = end_request-IsBalanced r _ _ rt b in
      continue-IsExecuted _ _ _ balanced orderly tt
  conclude_decode-IsExecuted r (err e) usage rt b h =
      let (balanced, orderly) = end_request-IsBalanced r _ _ rt b in
      continue-IsExecuted _ _ _ balanced orderly h

  advanced-IsBalanced :
      (m r : ℕ) (slot : ModelSlot B) (request : RequestSlot B) (rt : InferenceRuntime B)
      → IsBalanced rt
      → get rt.models m ≡ some slot
      → get slot.requests r ≡ some request
      → (model : B.Model) (sequence : B.Sequence) (usage : GenerationUsage)
      → IsBalanced
          (advanced m slot r (record request { sequence = sequence; usage = usage }) model rt)
  advanced-IsBalanced m r slot request rt b there held model sequence usage =
      let s = b.slots m slot there in
      let request' = record request { sequence = sequence; usage = usage } in
      put-IsBalanced m slot _ rt b there
        (sequence-SlotIsBalanced slot s r request held model request' refl refl)
        (λ k. sequence-owned_bytes slot s r request held model request' k refl)
        (length-insert_self slot.requests r request request' held) refl

  -- What looking up a request finds.
  pub data Found (r : ℕ) (rt : InferenceRuntime B) : Type 0 where
    missing :
        (e : RuntimeError) → (find_request r rt).0 ≡ err e → is_removal_error e ≡ true → Found r rt
    found :
        (m : ℕ) (slot : ModelSlot B) (request : RequestSlot B)
        → (find_request r rt).0 ≡ ok (m, slot, request)
        → get rt.models m ≡ some slot
        → get slot.requests r ≡ some request
        → Found r rt

  find_request-Found : (r : ℕ) (rt : InferenceRuntime B) → Found r rt
  unfolding find_request request_model_id slot_of
  find_request-Found r rt = elim (Option-cases (get rt.request_index r)) [
    | inl unknown ↦ missing (RuntimeError.request_not_active r) (rw unknown refl) refl
    | inr (m, indexed) ↦ elim (Option-cases (get rt.models m)) [
      | inl absent ↦ missing (RuntimeError.model_not_loaded m) (rw (indexed, absent) refl) refl
      | inr (slot, there) ↦ elim (Option-cases (get slot.requests r)) [
        | inl idle ↦
            missing (RuntimeError.request_not_active r) (rw (indexed, there, idle) refl) refl
        | inr (request, held) ↦ found m slot request (rw (indexed, there, held) refl) there held
      ]
    ]
  ]

  -- Whatever the backend answers, a prefill keeps the accounts of a balanced registry balanced, and it
  -- fails only when the request is not there, with a fault of the backend, or like the request's end.
  pub prefill-IsBalanced :
      (r : ℕ) (input : PrefillInput) (logits : List B.Scalar) (rt : InferenceRuntime B)
      → IsBalanced rt
      → IsBalanced (prefill {B = B} r input logits rt).1
        × FailsExecution (prefill {B = B} r input logits rt).0
  unfolding prefill prefill_found
  prefill-IsBalanced r input logits rt b = elim (find_request-Found r rt) [
    | missing e h orderly ↦ rw h (b, removal-execution e orderly)
    | found m slot request h there held ↦
        let done =
          prefill_checked B slot.model request.sequence input logits CancellationStatus.running in
        let faults =
          (checked-FailsOnFault B slot.model request.sequence logits CancellationStatus.running
            input 0).0 in
        rw h (
          conclude_prefill-IsExecuted r done.0 _ _
            (advanced-IsBalanced m r slot request rt b there held done.1 done.2
              (prefill_usage done.0 request.usage))
            faults)
  ]

  -- Whatever the backend answers, a decode keeps the accounts of a balanced registry balanced, and it
  -- fails only when the request is not there, with a fault of the backend, or like the request's end.
  pub decode-IsBalanced :
      (r token : ℕ) (logits : List B.Scalar) (rt : InferenceRuntime B)
      → IsBalanced rt
      → IsBalanced (decode {B = B} r token logits rt).1
        × FailsExecution (decode {B = B} r token logits rt).0
  unfolding decode decode_found
  decode-IsBalanced r token logits rt b = elim (find_request-Found r rt) [
    | missing e h orderly ↦ rw h (b, removal-execution e orderly)
    | found m slot request h there held ↦
        let done =
          decode_checked B slot.model request.sequence token logits CancellationStatus.running in
        let faults =
          (checked-FailsOnFault B slot.model request.sequence logits CancellationStatus.running
            no_input token).1 in
        rw h (
          conclude_decode-IsExecuted r done.0 _ _
            (advanced-IsBalanced m r slot request rt b there held done.1 done.2
              (decode_usage done.0 request.usage))
            faults)
  ]
