-- ===== src/Contracts/Backend/Outcomes.antt =====
-- What `prefill_checked` and `decode_checked` (crates/features/domain-contracts/src/backend.rs) report,
-- beside what the call was and what the backend answered.
use llm_app.Prelude.{
  ℕ, ◌-◌, ◌≤◌, ◌<◌, ◌≡◌, ◌⊎◌, Bool, true, false, List, length, Result, ok, err, Bool-cases, inl,
  inr, arith,
}
use llm_app.Contracts.Capacity.{CapacityResource, CancellationReason}
use llm_app.Contracts.Model.{SequenceError}
use llm_app.Contracts.Backend.{
  Backend, CancellationStatus, FinishReason, PrefillInput, PrefillOutcome, DecodeOutcome, ltb,
  SequenceState,
}

-- Exhausted capacity and cancellation end a sequence well.
abbrev pub is_fault : SequenceError → Bool
is_fault (SequenceError.capacity_exhausted c) = false
is_fault (SequenceError.cancelled r) = false
is_fault _ = true

-- A call of a checked operation: the tokens that it brings and the room for them, the logits that it
-- needs and those of the caller's buffer, and the answer that the backend would give.
pub record Attempt (O : Type 0) : Type 0 where
  pub status : CancellationStatus
  pub refused : Bool
  pub tokens : ℕ
  pub room : ℕ
  pub required : ℕ
  pub logits : ℕ
  pub answer : Result SequenceError O

module _ {O : Type 0} (a : Attempt O) where
  -- The operation gets to the backend.
  abbrev pub IsAdmitted : Type 0
  IsAdmitted =
      (a.status ≡ CancellationStatus.running)
      × (a.refused ≡ false)
      × (a.tokens ≤ a.room)
      × (a.required ≤ a.logits)

  -- A failure is a fault: the state does not allow the call, which is not cancelled, or the backend
  -- answered so.
  abbrev pub HasFailed : SequenceError → Type 0
  HasFailed e =
      (is_fault e ≡ true)
      × (((a.status ≡ CancellationStatus.running)
            × (a.refused ≡ true)
            × (e ≡ SequenceError.invalid_state))
          ⊎ (IsAdmitted × (a.answer ≡ err e)))

  -- Any other error of the backend is an end of the sequence for the same reason.
  abbrev pub IsEndOf : FinishReason → SequenceError → Type 0
  IsEndOf f (SequenceError.capacity_exhausted c) = f ≡ FinishReason.buffer_exhausted c
  IsEndOf f (SequenceError.cancelled r) = f ≡ FinishReason.cancelled r
  IsEndOf f _ = ⊥

  -- The reasons for which a sequence ends: a cancellation, else in a state that allows the call too
  -- little room for the tokens, else for the logits, else what the backend answered.
  abbrev pub HasEnded : (FinishReason → O) → FinishReason → Type 0
  HasEnded finished f =
      ((r : CancellationReason) × (a.status ≡ CancellationStatus.requested r)
        × (f ≡ FinishReason.cancelled r))
      ⊎ (((a.status ≡ CancellationStatus.running)
            × (a.refused ≡ false)
            × (a.room < a.tokens)
            × (f
                ≡ FinishReason.buffer_exhausted (record {
                  resource = CapacityResource.tokens;
                  required = a.tokens;
                  available = a.room;
                })))
          ⊎ (((a.status ≡ CancellationStatus.running)
                × (a.refused ≡ false)
                × (a.tokens ≤ a.room)
                × (a.logits < a.required)
                × (f
                    ≡ FinishReason.buffer_exhausted (record {
                      resource = CapacityResource.logits;
                      required = a.required;
                      available = a.logits;
                    })))
              ⊎ ((IsAdmitted × (a.answer ≡ ok (finished f)))
                  ⊎ (IsAdmitted × ((e : SequenceError) × (a.answer ≡ err e) × IsEndOf f e)))))

  abbrev pub IsReady : O → Type 0
  IsReady outcome = IsAdmitted × (a.answer ≡ ok outcome)

-- The ways that a call takes through the guards.
pub data Way {O : Type 0} (a : Attempt O) : Type 0 where
  cancelled : (r : CancellationReason) → a.status ≡ CancellationStatus.requested r → Way a
  refused : a.status ≡ CancellationStatus.running → a.refused ≡ true → Way a
  no_room : a.status ≡ CancellationStatus.running → a.refused ≡ false → a.room < a.tokens → Way a
  no_logits :
      a.status ≡ CancellationStatus.running
      → a.refused ≡ false
      → a.tokens ≤ a.room
      → a.logits < a.required
      → Way a
  admitted : IsAdmitted a → Way a

pub way : {O : Type 0} (a : Attempt O) (s : CancellationStatus) → a.status ≡ s → Way a
way a (CancellationStatus.requested r) e = cancelled r e
way a CancellationStatus.running e = elim (Bool-cases a.refused) [
  | inl f ↦ refused e f
  | inr f ↦ elim (Bool-cases (ltb a.room a.tokens)) [
    | inl g ↦ no_room e f (ground arith)
    | inr g ↦ elim (Bool-cases (ltb a.logits a.required)) [
      | inl k ↦ no_logits e f (ground arith) (ground arith)
      | inr k ↦ admitted (e, f, ground arith, ground arith)
    ]
  ]
]

abbrev pub PrefillIsExplained :
    Attempt PrefillOutcome → Result SequenceError PrefillOutcome → Type 0
PrefillIsExplained a (ok (PrefillOutcome.ready consumed position written)) =
    IsReady a (PrefillOutcome.ready consumed position written)
PrefillIsExplained a (ok (PrefillOutcome.finished f)) = HasEnded a PrefillOutcome.finished f
PrefillIsExplained a (err e) = HasFailed a e

abbrev pub DecodeIsExplained : Attempt DecodeOutcome → Result SequenceError DecodeOutcome → Type 0
DecodeIsExplained a (ok (DecodeOutcome.ready position written)) =
    IsReady a (DecodeOutcome.ready position written)
DecodeIsExplained a (ok (DecodeOutcome.finished f)) = HasEnded a DecodeOutcome.finished f
DecodeIsExplained a (err e) = HasFailed a e

-- The states in which a prefill fails, and those in which a decode does.
abbrev pub refuses_prefill : SequenceState → Bool
refuses_prefill SequenceState.empty = false
refuses_prefill SequenceState.ready = false
refuses_prefill SequenceState.finished = true
refuses_prefill SequenceState.transitioning = false

abbrev pub refuses_decode : SequenceState → Bool
refuses_decode SequenceState.empty = true
refuses_decode SequenceState.ready = false
refuses_decode SequenceState.finished = true
refuses_decode SequenceState.transitioning = true

-- The model, the sequence and the buffer after an operation.
abbrev pub left : {R M S L : Type 0} → R × M × S × L → M × S × L
left done = (done.1, done.2, done.3)

-- The backend's part in an operation: on an admitted call what it leaves, on any other nothing.
abbrev pub Leaves {ℓ} : {O : Type 0} {A : Type ℓ} → Attempt O → A → A → A → Type ℓ
Leaves a before backend after =
    (IsAdmitted a × (after ≡ backend)) ⊎ ((¬ IsAdmitted a) × (after ≡ before))

module _ (B : Backend) (model : B.Model) (sequence : B.Sequence) (logits : List B.Scalar)
    (status : CancellationStatus) where
  abbrev pub prefill_attempt : PrefillInput → Attempt PrefillOutcome
  prefill_attempt input = record {
    status = status;
    refused = refuses_prefill (B.state sequence);
    tokens = length input.tokens;
    room = B.token_capacity sequence - B.position sequence;
    required = B.prefill_buffer_requirements model sequence input;
    logits = length logits;
    answer =
        (B.prefill_prepared model sequence input logits
          (B.prefill_buffer_requirements model sequence input)).0;
  }

  abbrev pub decode_attempt : ℕ → Attempt DecodeOutcome
  decode_attempt token = record {
    status = status;
    refused = refuses_decode (B.state sequence);
    tokens = 1;
    room = B.token_capacity sequence - B.position sequence;
    required = B.decode_buffer_requirements model sequence token;
    logits = length logits;
    answer =
        (B.decode_prepared model sequence token logits
          (B.decode_buffer_requirements model sequence token)).0;
  }
