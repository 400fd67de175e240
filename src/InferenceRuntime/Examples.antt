-- ===== src/InferenceRuntime/Examples.antt =====
-- A small backend, and a registry over it that the tests of the inference runtime
-- (crates/engines/inference-runtime/src) start from.
use llm_app.Prelude.{ℕ, false, ltb, if◌then◌else◌, [], ◌∷◌, length, ok, err}
use llm_app.Prelude.{insert}
use llm_app.Contracts.Lifecycle.{ModelLifecycleState}
use llm_app.Contracts.Model.{
  MemoryFootprint, ModelHandle, ModelMetadata, ModelDescriptor, ModelArchitecture, ScalarType,
  QuantizationFormat, SequenceError, no_footprint,
}
use llm_app.Contracts.Backend.{Backend, SequenceState, PrefillOutcome, DecodeOutcome}
use llm_app.InferenceRuntime.Errors.{RuntimeLimits}
use llm_app.InferenceRuntime.Registry.{RequestSlot, ModelSlot, InferenceRuntime, new}

abbrev pub bytes : ℕ → ℕ → MemoryFootprint
bytes weight working = record {
  host_weight_bytes = weight;
  device_weight_bytes = 0;
  host_working_bytes = working;
  device_working_bytes = 0;
  cache_bytes_per_token = 1;
}

abbrev pub metadata : ModelMetadata
metadata = record {
  architecture = ModelArchitecture.llama;
  scalar_type = ScalarType.f32;
  quantization = QuantizationFormat.unquantized;
  vocabulary_size = 8;
  context_length = 16;
}

abbrev pub descriptor : ModelDescriptor
descriptor = record {
  backend = 0;
  metadata = metadata;
  capabilities = record {
    operations = 3;
    maximum_context_tokens = 16;
    maximum_sequences = 4;
    maximum_prefill_batch = 8;
  };
  estimated_footprint = bytes 100 0;
}

-- A sequence is its identity, and one above 8 cannot be destroyed.
abbrev pub toy : Backend
toy = record {
  Source = Unit;
  Loader = Unit;
  Model = ModelHandle;
  Sequence = ℕ;
  Scalar = ℕ;
  plan_load = λ loader source configuration.
      ok (record { descriptor = descriptor; expected_footprint = bytes 100 0 });
  load = λ loader source configuration. (ok configuration.handle, loader);
  id = λ sequence. sequence;
  state = λ sequence. SequenceState.ready;
  position = λ sequence. 0;
  token_capacity = λ sequence. 16;
  handle = λ model. model;
  metadata = λ model. metadata;
  plan_sequence = λ model configuration. ok (record {
    configuration = configuration;
    expected_footprint = bytes 0 10;
    logits_capacity = 8;
  });
  create_sequence = λ model sequence_id configuration. (ok sequence_id, model);
  prefill_buffer_requirements = λ model sequence input. 8;
  decode_buffer_requirements = λ model sequence token. 8;
  prefill_prepared = λ model sequence input logits required.
      (ok (PrefillOutcome.ready (length input.tokens) 1 required), model, sequence, logits);
  decode_prepared = λ model sequence token logits required.
      (ok (DecodeOutcome.ready 2 required), model, sequence, logits);
  destroy_sequence = λ model sequence.
      (if ltb sequence 9 then ok tt else err SequenceError.unsupported, model, sequence);
  prepare_unload = λ model. (ok tt, model);
}

abbrev pub limits : RuntimeLimits
limits = record {
  maximum_loaded_models = 2;
  maximum_active_requests = 4;
  memory_budget = record { host_limit = 1000; device_limit = 1000 };
  cleanup_maximum_attempts = 3;
}

-- A model with two requests, of which the second cannot be destroyed.
abbrev pub request : ℕ → RequestSlot toy
request sequence = record {
  sequence = sequence;
  backend_footprint = bytes 0 10;
  workspace_footprint = no_footprint;
  usage = record { prompt_tokens = 0; generated_tokens = 0 };
}

abbrev pub handle_1 : ModelHandle
handle_1 = record { id = 1; generation = 1 }

abbrev pub active_slot : ModelSlot toy
active_slot = record {
  handle = handle_1;
  descriptor = descriptor;
  lifecycle = record { state = ModelLifecycleState.active 2 };
  model = handle_1;
  model_footprint = bytes 100 0;
  reserved_footprint = record (bytes 100 20) { cache_bytes_per_token = 3 };
  requests = (5, request 5) ∷ (9, request 9) ∷ [];
  pending_sequences = [];
  poisoned = false;
  cancelled_requests_during_unload = 0;
}

abbrev pub registry : InferenceRuntime toy
registry = record (new toy tt limits) {
  models = insert 1 active_slot [];
  request_index = (5, 1) ∷ (9, 1) ∷ [];
  sequence_index = (5, 5) ∷ (9, 9) ∷ [];
  generations = (1, 1) ∷ [];
  reserved_footprint = record (bytes 100 20) { cache_bytes_per_token = 3 };
  active_requests = 2;
}
