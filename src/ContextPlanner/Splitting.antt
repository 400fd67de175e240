-- ===== src/ContextPlanner/Splitting.antt =====
-- The first loop of `plan` (crates/features/context-planner/src/lib.rs), which sets pinned entries apart.
use llm_app.Prelude.{
  ℕ, suc, ◌+◌, ◌<◌, ◌≡◌, refl, sym, ◌∙◌, inl, inr, true, false, if◌then◌else◌, List, [], ◌∷◌, ◌++◌,
  length, set, ok, Bool-cases, Result-cases, arith,
}
use llm_app.Prelude.{take, take-set, append_assoc, append-nil, saturating_add, u64_max}
use mathlib.Core.List.{Perm, perm_middle}
use mathlib.Core.List.Perm
use llm_app.ContextPlanner.{ContextEntry, is_pinned, write_index, Split, split_entry, split_entries}

-- A write just behind a prefix extends it.
pub write_index-take :
    (xs ys : List ℕ) (n v : ℕ) → write_index xs n v ≡ ok ys → take (n + 1) ys ≡ take n xs ++ v ∷ []
unfolding write_index
write_index-take xs ys n v h =
    let room : n < length xs = ground arith in
    let written : set xs n v ≡ ys = ground arith in
    let at : n + 1 ≡ suc n = omega arith in rw (← written, at) (take-set n xs v room)

-- The indices of the pinned entries, and of the others.
unfoldable pub pinned_from : ℕ → List ContextEntry → List ℕ
pinned_from index [] = []
pinned_from index (entry ∷ entries) =
    let rest = pinned_from (suc index) entries in if is_pinned entry then index ∷ rest else rest

unfoldable pub candidates_from : ℕ → List ContextEntry → List ℕ
candidates_from index [] = []
candidates_from index (entry ∷ entries) =
    let rest = candidates_from (suc index) entries in if is_pinned entry then rest else index ∷ rest

unfoldable pub indices_from : ℕ → List ContextEntry → List ℕ
indices_from index [] = []
indices_from index (entry ∷ entries) = index ∷ indices_from (suc index) entries

pub pinned_from-candidates_from-perm :
    (index : ℕ) (entries : List ContextEntry)
    → Perm (pinned_from index entries ++ candidates_from index entries) (indices_from index entries)
unfolding pinned_from candidates_from indices_from
pinned_from-candidates_from-perm index [] = Perm.refl []
pinned_from-candidates_from-perm index (entry ∷ entries) = elim (Bool-cases (is_pinned entry)) [
  | inl kept ↦ rw kept (Perm.cons index (pinned_from-candidates_from-perm (suc index) entries))
  | inr other ↦ rw other (
      Perm.trans
        (perm_middle (pinned_from (suc index) entries) (candidates_from (suc index) entries))
        (Perm.cons index (pinned_from-candidates_from-perm (suc index) entries)))
]

unfoldable pub pinned_sum : List ContextEntry → ℕ
pinned_sum [] = 0
pinned_sum (entry ∷ entries) =
    (if is_pinned entry then entry.estimated_tokens else 0) + pinned_sum entries

-- What a part of the first loop adds.
pub record Splits (index : ℕ) (entries : List ContextEntry) (s s' : Split) : Type 0 where
  pub pinned :
      take s'.selected_length s'.selected
      ≡ take s.selected_length s.selected ++ pinned_from index entries
  pub candidates :
      take s'.candidate_length s'.ordering
      ≡ take s.candidate_length s.ordering ++ candidates_from index entries
  pub tokens :
      s'.pinned_tokens < u64_max
      → (s.pinned_tokens < u64_max) × (s'.pinned_tokens ≡ s.pinned_tokens + pinned_sum entries)

split_pinned :
    (index : ℕ) (entry : ContextEntry) (s s' : Split)
    → is_pinned entry ≡ true
    → split_entry index entry s ≡ ok s'
    → (take s'.selected_length s'.selected ≡ take s.selected_length s.selected ++ index ∷ [])
      × (take s'.candidate_length s'.ordering ≡ take s.candidate_length s.ordering)
      × (s'.pinned_tokens ≡ saturating_add u64_max s.pinned_tokens entry.estimated_tokens)
unfolding split_entry
split_pinned index entry s s' e h =
    elim (Result-cases (write_index s.selected s.selected_length index)) [
      | inl (error, f) ↦ absurd (ground arith)
      | inr (selected, f) ↦ (
        ground (arith, write_index-take s.selected selected s.selected_length index f),
        ground arith,
        ground arith,
      )
    ]

split_other :
    (index : ℕ) (entry : ContextEntry) (s s' : Split)
    → is_pinned entry ≡ false
    → split_entry index entry s ≡ ok s'
    → (take s'.selected_length s'.selected ≡ take s.selected_length s.selected)
      × (take s'.candidate_length s'.ordering ≡ take s.candidate_length s.ordering ++ index ∷ [])
      × (s'.pinned_tokens ≡ s.pinned_tokens)
unfolding split_entry
split_other index entry s s' e h =
    elim (Result-cases (write_index s.ordering s.candidate_length index)) [
      | inl (error, f) ↦ absurd (ground arith)
      | inr (ordering, f) ↦ (
        ground arith,
        ground (arith, write_index-take s.ordering ordering s.candidate_length index f),
        ground arith,
      )
    ]

pub split_entries-Splits :
    (index : ℕ) (entries : List ContextEntry) (s s' : Split)
    → split_entries index entries s ≡ ok s'
    → Splits index entries s s'
unfolding split_entries pinned_from candidates_from pinned_sum
split_entries-Splits index [] s s' h =
    let same : s ≡ s' = ground arith in
    rw (← same) (record {
      pinned = sym (append-nil (take s.selected_length s.selected));
      candidates = sym (append-nil (take s.candidate_length s.ordering));
      tokens = λ h. (h, omega arith);
    })
split_entries-Splits index (entry ∷ entries) s s' h =
    elim (Result-cases (split_entry index entry s)) [
      | inl (error, f) ↦ absurd (ground arith)
      | inr (m, f) ↦
          let v : Splits (suc index) entries m s' =
            split_entries-Splits (suc index) entries m s' (ground arith) in
          elim (Bool-cases (is_pinned entry)) [
            | inl kept ↦
                let (p, c, t) = split_pinned index entry s m kept f in
                record {
                  pinned = rw kept (
                      v.pinned
                      ∙ rw p (
                          append_assoc (take s.selected_length s.selected) (index ∷ [])
                            (pinned_from (suc index) entries)));
                  candidates = rw kept (v.candidates ∙ rw c refl);
                  tokens = λ small. let (less, eq) = v.tokens small in (ground arith, ground arith);
                }
            | inr other ↦
                let (p, c, t) = split_other index entry s m other f in
                record {
                  pinned = rw other (v.pinned ∙ rw p refl);
                  candidates = rw other (
                      v.candidates
                      ∙ rw c (
                          append_assoc (take s.candidate_length s.ordering) (index ∷ [])
                            (candidates_from (suc index) entries)));
                  tokens = λ small. let (less, eq) = v.tokens small in (ground arith, ground arith);
                }
          ]
    ]
