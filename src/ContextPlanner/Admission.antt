-- ===== src/ContextPlanner/Admission.antt =====
-- The second loop of `plan` (crates/features/context-planner/src/lib.rs), which admits candidates.
use llm_app.Prelude.{
  ℕ, ◌+◌, ◌≤◌, ◌<◌, ◌≡◌, refl, sym, ◌∙◌, inl, inr, true, false, leb, List, [], ◌∷◌, ◌++◌, get_elem?,
  ok, Bool-cases, Option-cases, Result-cases, arith,
}
use llm_app.Prelude.{take, append_assoc, append-nil, saturating_add, u64_max}
use mathlib.Core.List.{Perm, perm_middle}
use mathlib.Core.List.Perm
use llm_app.ContextPlanner.{ContextEntry, write_index, Admitted, admit_entry, admit}
use llm_app.ContextPlanner.Sorting.{tokens_at, tokens_of}
use llm_app.ContextPlanner.Splitting.{write_index-take}

-- What a part of the second loop adds: `chosen` to the selection and `left` to the dropped.
pub record Admits (entries : List ContextEntry) (available : ℕ) (candidates : List ℕ)
    (a a' : Admitted) : Type 0 where
  pub chosen : List ℕ
  pub left : List ℕ
  pub selected : take a'.selected_length a'.selected ≡ take a.selected_length a.selected ++ chosen
  pub dropped : take a'.dropped_length a'.dropped ≡ take a.dropped_length a.dropped ++ left
  pub split : Perm (chosen ++ left) candidates
  pub tokens : a'.admitted_tokens ≡ a.admitted_tokens + tokens_of entries chosen
  pub within : a.admitted_tokens ≤ available → a'.admitted_tokens ≤ available

module _ (available index : ℕ) (entry : ContextEntry) (a m : Admitted)
    (small : available < u64_max) where
  admit_fits :
      leb (saturating_add u64_max a.admitted_tokens entry.estimated_tokens) available ≡ true
      → admit_entry available index entry a ≡ ok m
      → (take m.selected_length m.selected ≡ take a.selected_length a.selected ++ index ∷ [])
        × (take m.dropped_length m.dropped ≡ take a.dropped_length a.dropped)
        × (m.admitted_tokens ≡ a.admitted_tokens + entry.estimated_tokens)
        × (m.admitted_tokens ≤ available)
  unfolding admit_entry
  admit_fits fits h = elim (Result-cases (write_index a.selected a.selected_length index)) [
    | inl (error, f) ↦ absurd (ground arith)
    | inr (selected, f) ↦ (
      ground (arith, write_index-take a.selected selected a.selected_length index f),
      ground arith,
      ground arith,
      ground arith,
    )
  ]

  admit_drops :
      leb (saturating_add u64_max a.admitted_tokens entry.estimated_tokens) available ≡ false
      → admit_entry available index entry a ≡ ok m
      → (take m.selected_length m.selected ≡ take a.selected_length a.selected)
        × (take m.dropped_length m.dropped ≡ take a.dropped_length a.dropped ++ index ∷ [])
        × (m.admitted_tokens ≡ a.admitted_tokens)
  unfolding admit_entry
  admit_drops full h = elim (Result-cases (write_index a.dropped a.dropped_length index)) [
    | inl (error, f) ↦ absurd (ground arith)
    | inr (dropped, f) ↦ (
      ground arith,
      ground (arith, write_index-take a.dropped dropped a.dropped_length index f),
      ground arith,
    )
  ]

pub admit-Admits :
    (entries : List ContextEntry) (available : ℕ) (candidates : List ℕ) (a a' : Admitted)
    → available < u64_max
    → admit entries available candidates a ≡ ok a'
    → Admits entries available candidates a a'
unfolding admit tokens_of tokens_at
admit-Admits entries available [] a a' small h =
    let same : a ≡ a' = ground arith in
    rw (← same) (record {
      chosen = [];
      left = [];
      selected = sym (append-nil (take a.selected_length a.selected));
      dropped = sym (append-nil (take a.dropped_length a.dropped));
      split = Perm.refl [];
      tokens = omega arith;
      within = λ le. le;
    })
admit-Admits entries available (index ∷ candidates) a a' small h =
    elim (Option-cases (get_elem? entries index)) [
      | inl e ↦ absurd (ground arith)
      | inr (entry, e) ↦ elim (Result-cases (admit_entry available index entry a)) [
        | inl (error, f) ↦ absurd (ground arith)
        | inr (m, f) ↦
            let v : Admits entries available candidates m a' =
              admit-Admits entries available candidates m a' small (ground arith) in
            elim (Bool-cases
              (leb (saturating_add u64_max a.admitted_tokens entry.estimated_tokens) available)) [
                | inl fits ↦
                    let (p, q, t, le) = admit_fits available index entry a m small fits f in
                    record {
                      chosen = index ∷ v.chosen;
                      left = v.left;
                      selected =
                          v.selected
                          ∙ rw p (
                              append_assoc (take a.selected_length a.selected) (index ∷ [])
                                v.chosen);
                      dropped = v.dropped ∙ rw q refl;
                      split = Perm.cons index v.split;
                      tokens = ground (arith, v.tokens);
                      within = λ _. v.within le;
                    }
                | inr full ↦
                    let (p, q, t) = admit_drops available index entry a m small full f in
                    record {
                      chosen = v.chosen;
                      left = index ∷ v.left;
                      selected = v.selected ∙ rw p refl;
                      dropped =
                          v.dropped
                          ∙ rw q
                              (append_assoc (take a.dropped_length a.dropped) (index ∷ []) v.left);
                      split = Perm.trans (perm_middle v.chosen v.left) (Perm.cons index v.split);
                      tokens = ground (arith, v.tokens);
                      within = λ le. v.within (ground arith);
                    }
              ]
      ]
    ]
