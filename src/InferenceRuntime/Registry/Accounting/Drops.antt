-- ===== src/InferenceRuntime/Registry/Accounting/Drops.antt =====
-- Changes of the registry of crates/engines/inference-runtime/src/runtime.rs that keep its accounts: a slot whose
-- numbers stay, and a model without requests that leaves the registry.
use llm_app.Prelude.{ℕ, ◌+◌, ◌≡◌, refl, sym, ap, ◌∙◌, ◌≢◌, some, List, arith}
use llm_app.Prelude.{
  get, insert, remove, total, total-remove, get-remove-some, remove-IsAscending, IsAscending,
}
use llm_app.Contracts.Backend.{Backend}
use llm_app.InferenceRuntime.Footprints.{Part, part}
use llm_app.InferenceRuntime.Registry.{ModelSlot, InferenceRuntime}
use llm_app.InferenceRuntime.Registry.Accounting.{
  IsBalanced, SlotIsBalanced, Replaces-IsBalanced, owned_bytes, retained_bytes, active_of,
  pending_of,
}

module _ {B : Backend} where
  -- A write to a slot that changes none of its numbers.
  pub put-IsBalanced :
      (m : ℕ) (slot slot' : ModelSlot B) (rt : InferenceRuntime B)
      → IsBalanced rt
      → get rt.models m ≡ some slot
      → SlotIsBalanced slot'
      → ((k : Part) → owned_bytes k slot' ≡ owned_bytes k slot)
      → active_of slot' ≡ active_of slot
      → pending_of slot' ≡ pending_of slot
      → IsBalanced (record rt { models = insert m slot' rt.models })
  put-IsBalanced m slot slot' rt b there balanced owned active pending =
      Replaces-IsBalanced m slot slot' rt _ b (record {
        there = there;
        balanced = balanced;
        models = refl;
        pending_models = refl;
        workspace = refl;
        reserved = λ k. ap (λ (n : ℕ). part k rt.reserved_footprint + n) (sym (owned k));
        active = ap (λ (n : ℕ). rt.active_requests + n) (sym active);
        pending = ap (λ (n : ℕ). rt.pending_cleanup_sequences + n) (sym pending);
        counted = b.counted;
      })

  pub model-SlotIsBalanced :
      (slot : ModelSlot B) (model : B.Model)
      → SlotIsBalanced slot
      → SlotIsBalanced (record slot { model = model })
  model-SlotIsBalanced slot model b = record {
    reserved = b.reserved;
    wide = b.wide;
    counted = b.counted;
    requests_ascend = b.requests_ascend;
    pending_ascend = b.pending_ascend;
    apart = b.apart;
  }

  -- A model without requests leaves the registry, perhaps for the quarantine.
  pub record Drops (m : ℕ) (slot : ModelSlot B) (rt rt' : InferenceRuntime B) : Type 0 where
    pub there : get rt.models m ≡ some slot
    pub models : rt'.models ≡ remove m rt.models
    pub quarantine_ascends : IsAscending rt'.pending_models
    pub pending_models : (j : ℕ) → j ≢ m → get rt'.pending_models j ≡ get rt.pending_models j
    pub workspace : rt'.reserved_generation_workspace ≡ rt.reserved_generation_workspace
    pub reserved :
        (k : Part)
        → part k rt'.reserved_footprint
            + owned_bytes k slot
            + total (retained_bytes k) rt.pending_models
          ≡ part k rt.reserved_footprint + total (retained_bytes k) rt'.pending_models
    pub idle : active_of slot ≡ 0
    pub settled : pending_of slot ≡ 0
    pub active : rt'.active_requests ≡ rt.active_requests
    pub pending : rt'.pending_cleanup_sequences ≡ rt.pending_cleanup_sequences

  pub Drops-IsBalanced :
      (m : ℕ) (slot : ModelSlot B) (rt rt' : InferenceRuntime B)
      → IsBalanced rt
      → Drops m slot rt rt'
      → IsBalanced rt'
  Drops-IsBalanced m slot rt rt' b c =
      let found = λ (j : ℕ) (s : ModelSlot B) (h : get rt'.models j ≡ some s).
        get-remove-some rt.models m j s b.models_ascend
          (ap (λ (x : List (ℕ × ModelSlot B)). get x j) (sym c.models) ∙ h) in
      record {
        slots = λ j s h. b.slots j s (found j s h).1;
        quarantine_ascends = c.quarantine_ascends;
        models_ascend = rw c.models (remove-IsAscending m rt.models b.models_ascend);
        apart = λ j s h. let (n, before) = found j s h in c.pending_models j n ∙ b.apart j s before;
        reserved = λ k.
            rw (c.models, c.workspace)
              (omega (
                arith,
                c.reserved k,
                b.reserved k,
                total-remove (owned_bytes k) rt.models m slot c.there,
              ));
        active = rw c.models (
            omega
              (arith, c.active, c.idle, b.active, total-remove active_of rt.models m slot c.there));
        pending = rw c.models (
            omega (
              arith,
              c.pending,
              c.settled,
              b.pending,
              total-remove pending_of rt.models m slot c.there,
            ));
        counted = rw (c.active, c.pending) b.counted;
      }
