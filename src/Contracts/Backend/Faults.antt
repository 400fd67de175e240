-- ===== src/Contracts/Backend/Faults.antt =====
-- The failures of `prefill_checked` and `decode_checked` (crates/features/domain-contracts/src/backend.rs).
use llm_app.Prelude.{ℕ, ◌≡◌, true, List, Result, ok, err}
use llm_app.Contracts.Model.{SequenceError}
use llm_app.Contracts.Backend.{
  Backend, CancellationStatus, PrefillInput, PrefillOutcome, DecodeOutcome, prefill_checked,
  decode_checked,
}
use llm_app.Contracts.Backend.Outcomes.{is_fault, Attempt, PrefillIsExplained, DecodeIsExplained}
use llm_app.Contracts.Backend.Checked.{checked-IsExplained}

abbrev pub FailsOnFault {ℓ} : {A : Type ℓ} → Result SequenceError A → Type 0
FailsOnFault (ok outcome) = Unit
FailsOnFault (err e) = is_fault e ≡ true

prefill-FailsOnFault :
    (a : Attempt PrefillOutcome) (r : Result SequenceError PrefillOutcome)
    → PrefillIsExplained a r
    → FailsOnFault r
prefill-FailsOnFault a (ok outcome) h = tt
prefill-FailsOnFault a (err e) h = h.0

decode-FailsOnFault :
    (a : Attempt DecodeOutcome) (r : Result SequenceError DecodeOutcome)
    → DecodeIsExplained a r
    → FailsOnFault r
decode-FailsOnFault a (ok outcome) h = tt
decode-FailsOnFault a (err e) h = h.0

-- Whatever the backend answers, a checked operation fails only with a fault.
pub checked-FailsOnFault :
    (B : Backend) (model : B.Model) (sequence : B.Sequence) (logits : List B.Scalar)
    (status : CancellationStatus) (input : PrefillInput) (token : ℕ)
    → FailsOnFault (prefill_checked B model sequence input logits status).0
      × FailsOnFault (decode_checked B model sequence token logits status).0
checked-FailsOnFault B model sequence logits status input token =
    let ((p, _), (d, _)) = checked-IsExplained B model sequence logits status input token in
    (prefill-FailsOnFault _ _ p, decode-FailsOnFault _ _ d)
