-- ===== src/Contracts/Backend.antt =====
-- crates/features/domain-contracts/src: backend.rs, with the outcomes of generation.rs and the inputs and
-- buffers of sequence.rs. The traits `ModelLoader`, `LoadedModel` and `BackendSequence` are one record
-- of types and operations. A method on `&mut` returns what it may have changed beside its result.
pub mod Checked
pub mod Outcomes
pub mod Faults
mod Tests
use llm_app.Prelude.{
  ℕ, ◌-◌, Bool, true, false, ltb, ◌==◌, if◌then◌else◌, Option, none, some, List, length, Result, ok,
  err,
}
use llm_app.Contracts.Capacity.{CapacityResource, CapacityExhausted, CancellationReason}
use llm_app.Contracts.Model.{
  ModelHandle, ModelMetadata, LoadConfiguration, LoadPlan, SequenceConfiguration, SequencePlan,
  LoadError, ModelError, SequenceError, SynchronizationError,
}

pub data CancellationStatus : Type 0 where
  running : CancellationStatus
  requested : CancellationReason → CancellationStatus

abbrev pub reason : CancellationStatus → Option CancellationReason
reason CancellationStatus.running = none
reason (CancellationStatus.requested r) = some r

pub data FinishReason : Type 0 where
  token_limit stop_condition : FinishReason
  end_of_sequence : ℕ → FinishReason
  buffer_exhausted : CapacityExhausted → FinishReason
  cancelled : CancellationReason → FinishReason

pub data YieldReason : Type 0 where
  output_backpressure : CapacityExhausted → YieldReason
  scheduler backend_pending : YieldReason

pub record GenerationUsage : Type 0 where
  pub prompt_tokens : ℕ
  pub generated_tokens : ℕ

pub data PrefillOutcome : Type 0 where
  ready : (consumed_tokens position logits_written : ℕ) → PrefillOutcome
  finished : FinishReason → PrefillOutcome

pub data DecodeOutcome : Type 0 where
  ready : (position logits_written : ℕ) → DecodeOutcome
  finished : FinishReason → DecodeOutcome

pub data SequenceState : Type 0 where
  empty ready finished transitioning : SequenceState

pub record PrefillInput : Type 0 where
  pub tokens : List ℕ
  pub emit_logits : Bool

pub record Backend : Type 1 where
  pub Source : Type 0
  pub Loader : Type 0
  pub Model : Type 0
  pub Sequence : Type 0
  -- The elements of a logits buffer.
  pub Scalar : Type 0
  pub plan_load : Loader → Source → LoadConfiguration → Result LoadError LoadPlan
  pub load : Loader → Source → LoadConfiguration → Result LoadError Model × Loader
  pub id : Sequence → ℕ
  pub state : Sequence → SequenceState
  pub position : Sequence → ℕ
  pub token_capacity : Sequence → ℕ
  pub handle : Model → ModelHandle
  pub metadata : Model → ModelMetadata
  pub plan_sequence : Model → SequenceConfiguration → Result ModelError SequencePlan
  pub create_sequence : Model → ℕ → SequenceConfiguration → Result ModelError Sequence × Model
  pub prefill_buffer_requirements : Model → Sequence → PrefillInput → ℕ
  pub decode_buffer_requirements : Model → Sequence → ℕ → ℕ
  pub prefill_prepared :
      Model
      → Sequence
      → PrefillInput
      → List Scalar
      → ℕ
      → Result SequenceError PrefillOutcome × Model × Sequence × List Scalar
  pub decode_prepared :
      Model
      → Sequence
      → ℕ
      → List Scalar
      → ℕ
      → Result SequenceError DecodeOutcome × Model × Sequence × List Scalar
  pub destroy_sequence : Model → Sequence → Result SequenceError (Unit {0}) × Model × Sequence
  pub prepare_unload : Model → Result SynchronizationError (Unit {0}) × Model

-- `PrefillBuffers::prepare` and `DecodeBuffers::prepare`: the logits that are required beside the buffer.
unfoldable pub prepare : {A : Type 0} → List A → ℕ → Result CapacityExhausted ℕ
prepare logits required =
    if ltb (length logits) required
    then err (record {
      resource = CapacityResource.logits;
      required = required;
      available = length logits;
    })
    else ok required

abbrev pub is_finished : SequenceState → Bool
is_finished SequenceState.finished = true
is_finished _ = false

abbrev pub is_ready : SequenceState → Bool
is_ready SequenceState.ready = true
is_ready _ = false

module _ (B : Backend) where
  open B use {
    Model, Sequence, Scalar, state, position, token_capacity, prefill_buffer_requirements,
    decode_buffer_requirements, prefill_prepared, decode_prepared,
  }

  abbrev pub Prefilled : Type 0
  Prefilled = Result SequenceError PrefillOutcome × Model × Sequence × List Scalar

  abbrev pub Decoded : Type 0
  Decoded = Result SequenceError DecodeOutcome × Model × Sequence × List Scalar

  abbrev pub tokens_exhausted : ℕ → ℕ → FinishReason
  tokens_exhausted required available =
      FinishReason.buffer_exhausted
        (record { resource = CapacityResource.tokens; required = required; available = available })

  -- What `prefill_checked` and `decode_checked` make of a backend's failure.
  abbrev pub prefill_result :
      Result SequenceError PrefillOutcome → Result SequenceError PrefillOutcome
  prefill_result (ok outcome) = ok outcome
  prefill_result (err (SequenceError.capacity_exhausted c)) =
      ok (PrefillOutcome.finished (FinishReason.buffer_exhausted c))
  prefill_result (err (SequenceError.cancelled r)) =
      ok (PrefillOutcome.finished (FinishReason.cancelled r))
  prefill_result (err SequenceError.invalid_state) = err SequenceError.invalid_state
  prefill_result (err SequenceError.unsupported) = err SequenceError.unsupported
  prefill_result (err (SequenceError.backend f)) = err (SequenceError.backend f)

  abbrev pub decode_result : Result SequenceError DecodeOutcome → Result SequenceError DecodeOutcome
  decode_result (ok outcome) = ok outcome
  decode_result (err (SequenceError.capacity_exhausted c)) =
      ok (DecodeOutcome.finished (FinishReason.buffer_exhausted c))
  decode_result (err (SequenceError.cancelled r)) =
      ok (DecodeOutcome.finished (FinishReason.cancelled r))
  decode_result (err SequenceError.invalid_state) = err SequenceError.invalid_state
  decode_result (err SequenceError.unsupported) = err SequenceError.unsupported
  decode_result (err (SequenceError.backend f)) = err (SequenceError.backend f)

  abbrev pub prefilled : Prefilled → Prefilled
  prefilled (r, model, sequence, logits) = (prefill_result r, model, sequence, logits)

  abbrev pub decoded : Decoded → Decoded
  decoded (r, model, sequence, logits) = (decode_result r, model, sequence, logits)

  unfoldable pub prefill_checked :
      Model → Sequence → PrefillInput → List Scalar → CancellationStatus → Prefilled
  unfolding prepare
  prefill_checked model sequence input logits cancellation =
      let unchanged : Result SequenceError PrefillOutcome → Prefilled =
        λ r. (r, model, sequence, logits) in
      let available = token_capacity sequence - position sequence in
      elim (reason cancellation) [
        | some r ↦ unchanged (ok (PrefillOutcome.finished (FinishReason.cancelled r)))
        | none ↦
            if is_finished (state sequence)
            then unchanged (err SequenceError.invalid_state)
            else if ltb available (length input.tokens)
            then unchanged
                (ok (PrefillOutcome.finished (tokens_exhausted (length input.tokens) available)))
            else elim (prepare logits (prefill_buffer_requirements model sequence input)) [
              | err c ↦ unchanged (ok (PrefillOutcome.finished (FinishReason.buffer_exhausted c)))
              | ok required ↦ prefilled (prefill_prepared model sequence input logits required)
            ]
      ]

  pub decode_checked : Model → Sequence → ℕ → List Scalar → CancellationStatus → Decoded
  unfolding prepare
  decode_checked model sequence token logits cancellation =
      let unchanged : Result SequenceError DecodeOutcome → Decoded =
        λ r. (r, model, sequence, logits) in
      elim (reason cancellation) [
        | some r ↦ unchanged (ok (DecodeOutcome.finished (FinishReason.cancelled r)))
        | none ↦
            if is_ready (state sequence)
            then (if token_capacity sequence - position sequence == 0
                then unchanged (ok (DecodeOutcome.finished (tokens_exhausted 1 0)))
                else elim (prepare logits (decode_buffer_requirements model sequence token)) [
                  | err c ↦
                      unchanged (ok (DecodeOutcome.finished (FinishReason.buffer_exhausted c)))
                  | ok required ↦ decoded (decode_prepared model sequence token logits required)
                ])
            else unchanged (err SequenceError.invalid_state)
      ]
