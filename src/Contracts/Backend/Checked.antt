-- ===== src/Contracts/Backend/Checked.antt =====
-- `prefill_checked` and `decode_checked` (crates/features/domain-contracts/src/backend.rs) against the
-- description of their outcomes.
use llm_app.Prelude.{
  ℕ, ◌≡◌, refl, inl, inr, true, false, ◌==◌, ltb, List, Result, ok, err, arith, not,
}
use llm_app.Contracts.Capacity.{CapacityResource}
use llm_app.Contracts.Model.{SequenceError}
use llm_app.Contracts.Backend.{
  Backend, CancellationStatus, FinishReason, PrefillInput, PrefillOutcome, DecodeOutcome,
  prefill_checked, decode_checked, prefill_result, decode_result, prefilled, decoded,
  tokens_exhausted, is_ready, is_finished, SequenceState, prepare, Bool,
}
use llm_app.Contracts.Backend.Outcomes.{
  refuses_prefill, refuses_decode, Attempt, IsAdmitted, cancelled, refused, no_room, no_logits,
  admitted, way, PrefillIsExplained, DecodeIsExplained, left, Leaves, prefill_attempt,
  decode_attempt,
}

finished_state : (s : SequenceState) (b : Bool) → refuses_prefill s ≡ b → is_finished s ≡ b
finished_state SequenceState.empty b h = h
finished_state SequenceState.ready b h = h
finished_state SequenceState.finished b h = h
finished_state SequenceState.transitioning b h = h

ready_state : (s : SequenceState) (b : Bool) → refuses_decode s ≡ b → is_ready s ≡ not b
ready_state SequenceState.empty b h = ground arith
ready_state SequenceState.ready b h = ground arith
ready_state SequenceState.finished b h = ground arith
ready_state SequenceState.transitioning b h = ground arith

module _ (B : Backend) where
  prefill_answered :
      (a : Attempt PrefillOutcome) (r : Result SequenceError PrefillOutcome)
      → IsAdmitted a
      → a.answer ≡ r
      → PrefillIsExplained a (prefill_result B r)
  prefill_answered a (ok (PrefillOutcome.ready consumed position written)) h e = (h, e)
  prefill_answered a (ok (PrefillOutcome.finished f)) h e = inr (inr (inr (inl (h, e))))
  prefill_answered a (err SequenceError.invalid_state) h e = (refl, inr (h, e))
  prefill_answered a (err SequenceError.unsupported) h e = (refl, inr (h, e))
  prefill_answered a (err (SequenceError.capacity_exhausted c)) h e =
      inr (inr (inr (inr (h, (_, e, refl)))))
  prefill_answered a (err (SequenceError.cancelled r)) h e = inr (inr (inr (inr (h, (_, e, refl)))))
  prefill_answered a (err (SequenceError.backend f)) h e = (refl, inr (h, e))

  decode_answered :
      (a : Attempt DecodeOutcome) (r : Result SequenceError DecodeOutcome)
      → IsAdmitted a
      → a.answer ≡ r
      → DecodeIsExplained a (decode_result B r)
  decode_answered a (ok (DecodeOutcome.ready position written)) h e = (h, e)
  decode_answered a (ok (DecodeOutcome.finished f)) h e = inr (inr (inr (inl (h, e))))
  decode_answered a (err SequenceError.invalid_state) h e = (refl, inr (h, e))
  decode_answered a (err SequenceError.unsupported) h e = (refl, inr (h, e))
  decode_answered a (err (SequenceError.capacity_exhausted c)) h e =
      inr (inr (inr (inr (h, (_, e, refl)))))
  decode_answered a (err (SequenceError.cancelled r)) h e = inr (inr (inr (inr (h, (_, e, refl)))))
  decode_answered a (err (SequenceError.backend f)) h e = (refl, inr (h, e))

module _ (B : Backend) (model : B.Model) (sequence : B.Sequence) (logits : List B.Scalar)
    (status : CancellationStatus) where
  prefill_checked-explained :
      (input : PrefillInput)
      → PrefillIsExplained
          (prefill_attempt B model sequence logits status input)
          (prefill_checked B model sequence input logits status).0
        × Leaves {A = B.Model × B.Sequence × List B.Scalar}
            (prefill_attempt B model sequence logits status input)
            (model, sequence, logits)
            (left (
              B.prefill_prepared model sequence input logits
                (B.prefill_buffer_requirements model sequence input)))
            (left (prefill_checked B model sequence input logits status))
  unfolding prefill_checked prepare
  prefill_checked-explained input =
      let a = prefill_attempt B model sequence logits status input in
      elim (way a status refl) [
        | cancelled r e ↦
            let done : prefill_checked B model sequence input logits status ≡ (
              ok (PrefillOutcome.finished (FinishReason.cancelled r)),
              model,
              sequence,
              logits,
            ) =
              rw e refl in
            rw done (inl (r, e, refl), inr ((λ h. ground arith), refl))
        | refused e f ↦
            let at : is_finished (B.state sequence) ≡ true =
              finished_state (B.state sequence) _ f in
            let done : prefill_checked B model sequence input logits status
                ≡ (err SequenceError.invalid_state, model, sequence, logits) =
              rw (e, at) refl in
            rw done ((refl, inl (e, f, refl)), inr ((λ h. ground arith), refl))
        | no_room e f g ↦
            let at : is_finished (B.state sequence) ≡ false =
              finished_state (B.state sequence) _ f in
            let over : ltb a.room a.tokens ≡ true = ground arith in
            let done : prefill_checked B model sequence input logits status ≡ (
              ok (PrefillOutcome.finished (tokens_exhausted B a.tokens a.room)),
              model,
              sequence,
              logits,
            ) =
              rw (e, at, over) refl in
            rw done (inr (inl (e, f, g, refl)), inr ((λ h. ground arith), refl))
        | no_logits e f g k ↦
            let at : is_finished (B.state sequence) ≡ false =
              finished_state (B.state sequence) _ f in
            let fits : ltb a.room a.tokens ≡ false = ground arith in
            let over : ltb a.logits a.required ≡ true = ground arith in
            let done : prefill_checked B model sequence input logits status ≡ (
              ok (
                  PrefillOutcome.finished (
                    FinishReason.buffer_exhausted (record {
                      resource = CapacityResource.logits;
                      required = a.required;
                      available = a.logits;
                    }))),
              model,
              sequence,
              logits,
            ) =
              rw (e, at, fits, over) refl in
            rw done (inr (inr (inl (e, f, g, k, refl))), inr ((λ h. ground arith), refl))
        | admitted (e, f, g, k) ↦
            let at : is_finished (B.state sequence) ≡ false =
              finished_state (B.state sequence) _ f in
            let fits : ltb a.room a.tokens ≡ false = ground arith in
            let serves : ltb a.logits a.required ≡ false = ground arith in
            let done : prefill_checked B model sequence input logits status
                ≡ prefilled B (B.prefill_prepared model sequence input logits a.required) =
              rw (e, at, fits, serves) refl in
            rw done (prefill_answered B a a.answer (e, f, g, k) refl, inl ((e, f, g, k), refl))
      ]

  decode_checked-explained :
      (token : ℕ)
      → DecodeIsExplained
          (decode_attempt B model sequence logits status token)
          (decode_checked B model sequence token logits status).0
        × Leaves {A = B.Model × B.Sequence × List B.Scalar}
            (decode_attempt B model sequence logits status token)
            (model, sequence, logits)
            (left (
              B.decode_prepared model sequence token logits
                (B.decode_buffer_requirements model sequence token)))
            (left (decode_checked B model sequence token logits status))
  unfolding decode_checked prepare
  decode_checked-explained token =
      let a = decode_attempt B model sequence logits status token in
      elim (way a status refl) [
        | cancelled r e ↦
            let done : decode_checked B model sequence token logits status ≡ (
              ok (DecodeOutcome.finished (FinishReason.cancelled r)),
              model,
              sequence,
              logits,
            ) =
              rw e refl in
            rw done (inl (r, e, refl), inr ((λ h. ground arith), refl))
        | refused e f ↦
            let at : is_ready (B.state sequence) ≡ false = ready_state (B.state sequence) _ f in
            let done : decode_checked B model sequence token logits status
                ≡ (err SequenceError.invalid_state, model, sequence, logits) =
              rw (e, at) refl in
            rw done ((refl, inl (e, f, refl)), inr ((λ h. ground arith), refl))
        | no_room e f g ↦
            let at : is_ready (B.state sequence) ≡ true = ready_state (B.state sequence) _ f in
            let over : (a.room == 0) ≡ true = ground arith in
            let done : decode_checked B model sequence token logits status ≡ (
              ok (DecodeOutcome.finished (tokens_exhausted B a.tokens 0)),
              model,
              sequence,
              logits,
            ) =
              rw (e, at, over) refl in
            rw done (inr (inl (e, f, g, ground arith)), inr ((λ h. ground arith), refl))
        | no_logits e f g k ↦
            let at : is_ready (B.state sequence) ≡ true = ready_state (B.state sequence) _ f in
            let fits : (a.room == 0) ≡ false = ground arith in
            let over : ltb a.logits a.required ≡ true = ground arith in
            let done : decode_checked B model sequence token logits status ≡ (
              ok (
                  DecodeOutcome.finished (
                    FinishReason.buffer_exhausted (record {
                      resource = CapacityResource.logits;
                      required = a.required;
                      available = a.logits;
                    }))),
              model,
              sequence,
              logits,
            ) =
              rw (e, at, fits, over) refl in
            rw done (inr (inr (inl (e, f, g, k, refl))), inr ((λ h. ground arith), refl))
        | admitted (e, f, g, k) ↦
            let at : is_ready (B.state sequence) ≡ true = ready_state (B.state sequence) _ f in
            let fits : (a.room == 0) ≡ false = ground arith in
            let serves : ltb a.logits a.required ≡ false = ground arith in
            let done : decode_checked B model sequence token logits status
                ≡ decoded B (B.decode_prepared model sequence token logits a.required) =
              rw (e, at, fits, serves) refl in
            rw done (decode_answered B a a.answer (e, f, g, k) refl, inl ((e, f, g, k), refl))
      ]

-- Whatever the backend answers: when the call is cancelled, a checked operation ends the sequence for
-- that reason; else, when the state does not allow the call, it fails with `InvalidState`; else, when
-- there is too little room for the tokens or after that for the logits, it ends the sequence with the
-- numbers of what is exhausted; and else it reports what the backend answered, where the errors for
-- exhausted capacity and cancellation are ends of the sequence for the same reason and all others
-- are failures. The backend runs in the last case only; in the others the model, the sequence and the
-- buffer stay as they were.
pub checked-IsExplained :
    (B : Backend) (model : B.Model) (sequence : B.Sequence) (logits : List B.Scalar)
    (status : CancellationStatus) (input : PrefillInput) (token : ℕ)
    → (PrefillIsExplained
          (prefill_attempt B model sequence logits status input)
          (prefill_checked B model sequence input logits status).0
        × Leaves {A = B.Model × B.Sequence × List B.Scalar}
            (prefill_attempt B model sequence logits status input)
            (model, sequence, logits)
            (left (
              B.prefill_prepared model sequence input logits
                (B.prefill_buffer_requirements model sequence input)))
            (left (prefill_checked B model sequence input logits status)))
      × (DecodeIsExplained
            (decode_attempt B model sequence logits status token)
            (decode_checked B model sequence token logits status).0
          × Leaves {A = B.Model × B.Sequence × List B.Scalar}
              (decode_attempt B model sequence logits status token)
              (model, sequence, logits)
              (left (
                B.decode_prepared model sequence token logits
                  (B.decode_buffer_requirements model sequence token)))
              (left (decode_checked B model sequence token logits status)))
checked-IsExplained B model sequence logits status input token = (
  prefill_checked-explained B model sequence logits status input,
  decode_checked-explained B model sequence logits status token,
)
