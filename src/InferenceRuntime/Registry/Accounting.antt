-- ===== src/InferenceRuntime/Registry/Accounting.antt =====
-- What the counters and the reserved memory of crates/engines/inference-runtime/src/runtime.rs stand for.
pub mod Drops
pub mod Slots
use llm_app.Prelude.{
  ℕ, ◌+◌, ◌≤◌, ◌≡◌, sym, ap, subst, ◌∙◌, none, some, List, length, arith, get-insert-some, inl, inr,
}
use llm_app.Prelude.{
  get, insert, total, total-insert, get-insert_self, get-insert_ne, insert-IsAscending, IsAscending,
  u32_max, u64_max, ℕ_discrete,
}
use llm_app.Contracts.Lifecycle.Requests.{requests}
use llm_app.Contracts.Backend.{Backend}
use llm_app.InferenceRuntime.Footprints.{Part, part}
use llm_app.InferenceRuntime.Registry.{
  RequestSlot, PendingSequence, ModelSlot, PendingModel, InferenceRuntime,
}

module _ {B : Backend} where
  -- One of the five numbers of what a request's sequence, its workspace, or a quarantined sequence or
  -- model holds.
  abbrev pub sequence_bytes : Part → RequestSlot B → ℕ
  sequence_bytes k r = part k r.backend_footprint

  abbrev pub workspace_bytes : Part → RequestSlot B → ℕ
  workspace_bytes k r = part k r.workspace_footprint

  abbrev pub quarantined_bytes : Part → PendingSequence B → ℕ
  quarantined_bytes k p = part k p.footprint

  abbrev pub retained_bytes : Part → PendingModel B → ℕ
  retained_bytes k p = part k p.footprint

  -- What the backend holds for a model: its weights, its sequences and the quarantined ones.
  abbrev pub owned_bytes : Part → ModelSlot B → ℕ
  owned_bytes k slot =
      part k slot.model_footprint
      + total (sequence_bytes k) slot.requests
      + total (quarantined_bytes k) slot.pending_sequences

  -- A model's reservation is what the backend holds for it and the workspaces of its requests.
  pub record SlotIsBalanced (slot : ModelSlot B) : Type 0 where
    pub reserved :
        (k : Part)
        → part k slot.reserved_footprint
          ≡ owned_bytes k slot + total (workspace_bytes k) slot.requests
    pub wide : (k : Part) → part k slot.reserved_footprint ≤ u64_max
    pub counted : requests slot.lifecycle.state ≡ length slot.requests
    pub requests_ascend : IsAscending slot.requests
    pub pending_ascend : IsAscending slot.pending_sequences
    pub apart :
        (r : ℕ) (v : RequestSlot B)
        → get slot.requests r ≡ some v
        → get slot.pending_sequences r ≡ none

  abbrev pub active_of : ModelSlot B → ℕ
  active_of slot = length slot.requests

  abbrev pub pending_of : ModelSlot B → ℕ
  pending_of slot = length slot.pending_sequences

  -- The registry's reservation is what the backend holds for all models, resident or quarantined, and
  -- the workspaces that generation tasks have not released.
  pub record IsBalanced (rt : InferenceRuntime B) : Type 0 where
    pub slots : (m : ℕ) (slot : ModelSlot B) → get rt.models m ≡ some slot → SlotIsBalanced slot
    pub models_ascend : IsAscending rt.models
    pub quarantine_ascends : IsAscending rt.pending_models
    pub apart :
        (m : ℕ) (slot : ModelSlot B) → get rt.models m ≡ some slot → get rt.pending_models m ≡ none
    pub reserved :
        (k : Part)
        → part k rt.reserved_footprint
          ≡ total (owned_bytes k) rt.models
            + total (retained_bytes k) rt.pending_models
            + part k rt.reserved_generation_workspace
    pub active : rt.active_requests ≡ total active_of rt.models
    pub pending : rt.pending_cleanup_sequences ≡ total pending_of rt.models
    pub counted : rt.active_requests + rt.pending_cleanup_sequences ≤ u32_max

  -- A change of one slot, with the registry's numbers.
  pub record Replaces (m : ℕ) (slot slot' : ModelSlot B) (rt rt' : InferenceRuntime B)
      : Type 0 where
    pub there : get rt.models m ≡ some slot
    pub balanced : SlotIsBalanced slot'
    pub models : rt'.models ≡ insert m slot' rt.models
    pub pending_models : rt'.pending_models ≡ rt.pending_models
    pub workspace : rt'.reserved_generation_workspace ≡ rt.reserved_generation_workspace
    pub reserved :
        (k : Part)
        → part k rt'.reserved_footprint + owned_bytes k slot
          ≡ part k rt.reserved_footprint + owned_bytes k slot'
    pub active : rt'.active_requests + active_of slot ≡ rt.active_requests + active_of slot'
    pub pending :
        rt'.pending_cleanup_sequences + pending_of slot
        ≡ rt.pending_cleanup_sequences + pending_of slot'
    pub counted : rt'.active_requests + rt'.pending_cleanup_sequences ≤ u32_max

  get-insert-cases :
      (P : ModelSlot B → Type 0) (models : List (ℕ × ModelSlot B)) (m : ℕ) (slot' : ModelSlot B)
      → IsAscending models
      → P slot'
      → ((j : ℕ) (s : ModelSlot B) → get models j ≡ some s → P s)
      → (j : ℕ) (s : ModelSlot B) → get (insert m slot' models) j ≡ some s
      → P s
  get-insert-cases P models m slot' a p ps j s h = elim (get-insert-some models m j slot' s a h) [
    | inl (e, same) ↦ subst P same p
    | inr (n, before) ↦ ps j s before
  ]

  pub Replaces-IsBalanced :
      (m : ℕ) (slot slot' : ModelSlot B) (rt rt' : InferenceRuntime B)
      → IsBalanced rt
      → Replaces m slot slot' rt rt'
      → IsBalanced rt'
  Replaces-IsBalanced m slot slot' rt rt' b c = record {
    slots = λ j s h.
        get-insert-cases SlotIsBalanced rt.models m slot' b.models_ascend c.balanced b.slots j s
          (ap (λ (x : List (ℕ × ModelSlot B)). get x j) (sym c.models) ∙ h);
    quarantine_ascends = rw c.pending_models b.quarantine_ascends;
    models_ascend = rw c.models (insert-IsAscending m slot' rt.models b.models_ascend);
    apart = λ j s h. rw c.pending_models (elim (ℕ_discrete j m) [
      | yes e ↦ rw e (b.apart m slot c.there)
      | no n ↦
          let before : get rt.models j ≡ some s =
            sym (get-insert_ne j m slot' rt.models b.models_ascend n)
            ∙ ap (λ (x : List (ℕ × ModelSlot B)). get x j) (sym c.models)
            ∙ h in
          b.apart j s before
    ]);
    reserved = λ k.
        rw (c.models, c.pending_models, c.workspace)
          (omega (
            arith,
            c.reserved k,
            b.reserved k,
            total-insert (owned_bytes k) rt.models m slot slot' c.there,
          ));
    active =
        rw c.models (
          omega (arith, c.active, b.active, total-insert active_of rt.models m slot slot' c.there));
    pending = rw c.models (
        omega
          (arith, c.pending, b.pending, total-insert pending_of rt.models m slot slot' c.there));
    counted = c.counted;
  }
