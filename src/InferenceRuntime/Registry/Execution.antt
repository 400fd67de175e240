-- ===== src/InferenceRuntime/Registry/Execution.antt =====
-- crates/engines/inference-runtime/src/runtime.rs: `prefill` and `decode`, which end a request that finishes or fails.
-- The buffer of logits that the caller lends is returned beside the result and the registry.
pub mod Steps
mod Tests
use llm_app.Prelude.{
  ℕ, zero, suc, ◌+◌, ◌-◌, ◌≤◌, ◌<◌, ◌≡◌, refl, sym, ap, subst, ◌∙◌, ◌≢◌, ◌↔◌, ◌⊎◌, inl, inr, Bool,
  true, false, not, ◌&&◌, ◌||◌, ◌==◌, ltb, leb, if◌then◌else◌, Option, none, some, List, [], ◌∷◌,
  ◌++◌, length, get_elem?, set, All, Result, ok, err, ok_or, ensure, Bool-cases, Option-cases,
  Result-cases, ==_iff, ltb→lt, lt→ltb, leb→le, arith,
}
use llm_app.Prelude.{get, insert, u64_max, saturating_add}
use llm_app.Prelude.Transactions.{◌>>=◌, ◌>>◌, lift, refuse, succeed}
use llm_app.Contracts.Model.{SequenceError}
use llm_app.Contracts.Backend.{
  Backend, CancellationStatus, FinishReason, GenerationUsage, PrefillInput, PrefillOutcome,
  DecodeOutcome, prefill_checked, decode_checked,
}
use llm_app.InferenceRuntime.Errors.{RuntimeError, RuntimeOperation, FailureClass, failure_class}
use llm_app.InferenceRuntime.Registry.{
  InferenceRuntime, ModelSlot, RequestSlot, Runtime, slot_of, request_model_id,
}
use llm_app.InferenceRuntime.Registry.Removal.{
  remove_request, finish_operation, finish_failure_class,
}

pub record PrefillReceipt : Type 0 where
  pub outcome : PrefillOutcome
  pub usage : GenerationUsage

pub record DecodeReceipt : Type 0 where
  pub outcome : DecodeOutcome
  pub usage : GenerationUsage

abbrev pub is_cleanup_error : RuntimeError → Bool
is_cleanup_error (RuntimeError.cleanup_failed report) = true
is_cleanup_error (RuntimeError.cleanup_retry_exhausted s) = true
is_cleanup_error _ = false

abbrev pub preserve_primary_cleanup :
    Result RuntimeError (Unit {0}) → Result RuntimeError (Unit {0})
preserve_primary_cleanup (ok done) = ok done
preserve_primary_cleanup (err e) = if is_cleanup_error e then ok tt else err e

-- What the two operations count.
pub prefill_usage : Result SequenceError PrefillOutcome → GenerationUsage → GenerationUsage
prefill_usage (ok (PrefillOutcome.ready consumed position written)) u = record u {
  prompt_tokens = saturating_add u64_max u.prompt_tokens consumed;
}
prefill_usage _ u = u

pub decode_usage : Result SequenceError DecodeOutcome → GenerationUsage → GenerationUsage
decode_usage (ok (DecodeOutcome.ready position written)) u = record u {
  generated_tokens = saturating_add u64_max u.generated_tokens 1;
}
decode_usage _ u = u

abbrev pub Executed : Backend → Type 0 → Type 0
Executed B A = Result RuntimeError A × InferenceRuntime B × List B.Scalar

module _ {B : Backend} where
  -- The model and the request that an operation works on.
  pub find_request : ℕ → Runtime B (ℕ × ModelSlot B × RequestSlot B)
  find_request request_id = do
    model_id ← request_model_id request_id
    slot ← slot_of {B = B} model_id
    request ←
        lift (ok_or (get slot.requests request_id) (RuntimeError.request_not_active request_id))
    succeed (model_id, slot, request)

  pub end_request : ℕ → RuntimeOperation → FailureClass → Runtime B (Unit {0})
  end_request request_id operation failure rt =
      let ended = remove_request request_id operation failure rt in
      (preserve_primary_cleanup ended.0, ended.1)

  pub conclude_prefill :
      ℕ → Result SequenceError PrefillOutcome → GenerationUsage → Runtime B PrefillReceipt
  conclude_prefill request_id (ok (PrefillOutcome.finished r)) usage =
      end_request request_id (finish_operation r) (finish_failure_class r)
      >> succeed (record { outcome = PrefillOutcome.finished r; usage = usage })
  conclude_prefill request_id (ok (PrefillOutcome.ready consumed position written)) usage =
      succeed (record { outcome = PrefillOutcome.ready consumed position written; usage = usage })
  conclude_prefill request_id (err e) usage =
      end_request request_id RuntimeOperation.prefill (failure_class (RuntimeError.sequence e))
      >> refuse (RuntimeError.sequence e)

  pub conclude_decode :
      ℕ → Result SequenceError DecodeOutcome → GenerationUsage → Runtime B DecodeReceipt
  conclude_decode request_id (ok (DecodeOutcome.finished r)) usage =
      end_request request_id (finish_operation r) (finish_failure_class r)
      >> succeed (record { outcome = DecodeOutcome.finished r; usage = usage })
  conclude_decode request_id (ok (DecodeOutcome.ready position written)) usage =
      succeed (record { outcome = DecodeOutcome.ready position written; usage = usage })
  conclude_decode request_id (err e) usage =
      end_request request_id RuntimeOperation.decode (failure_class (RuntimeError.sequence e))
      >> refuse (RuntimeError.sequence e)

  -- The registry after a call of the backend on one of its requests.
  abbrev pub advanced :
      ℕ → ModelSlot B → ℕ → RequestSlot B → B.Model → InferenceRuntime B → InferenceRuntime B
  advanced model_id slot request_id request model rt = record rt {
    models =
        insert model_id
          (record slot { model = model; requests = insert request_id request slot.requests })
          rt.models;
  }

  -- The operations on what `find_request` found.
  pub prefill_found :
      ℕ
      → PrefillInput
      → List B.Scalar
      → InferenceRuntime B
      → Result RuntimeError (ℕ × ModelSlot B × RequestSlot B)
      → Executed B PrefillReceipt
  prefill_found request_id input logits rt (err e) = (err e, rt, logits)
  prefill_found request_id input logits rt (ok (model_id, slot, request)) =
      let (result, model, sequence, logits') =
        prefill_checked B slot.model request.sequence input logits CancellationStatus.running in
      let usage = prefill_usage result request.usage in
      let request' = record request { sequence = sequence; usage = usage } in
      let (concluded, rt') =
        conclude_prefill request_id result usage
          (advanced model_id slot request_id request' model rt) in
      (concluded, rt', logits')

  pub prefill : ℕ → PrefillInput → List B.Scalar → InferenceRuntime B → Executed B PrefillReceipt
  prefill request_id input logits rt =
      prefill_found request_id input logits rt (find_request request_id rt).0

  pub decode_found :
      ℕ
      → ℕ
      → List B.Scalar
      → InferenceRuntime B
      → Result RuntimeError (ℕ × ModelSlot B × RequestSlot B)
      → Executed B DecodeReceipt
  decode_found request_id token logits rt (err e) = (err e, rt, logits)
  decode_found request_id token logits rt (ok (model_id, slot, request)) =
      let (result, model, sequence, logits') =
        decode_checked B slot.model request.sequence token logits CancellationStatus.running in
      let usage = decode_usage result request.usage in
      let request' = record request { sequence = sequence; usage = usage } in
      let (concluded, rt') =
        conclude_decode request_id result usage
          (advanced model_id slot request_id request' model rt) in
      (concluded, rt', logits')

  pub decode : ℕ → ℕ → List B.Scalar → InferenceRuntime B → Executed B DecodeReceipt
  decode request_id token logits rt =
      decode_found request_id token logits rt (find_request request_id rt).0
