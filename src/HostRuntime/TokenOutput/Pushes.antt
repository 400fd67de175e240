-- ===== src/HostRuntime/TokenOutput/Pushes.antt =====
-- When a push of crates/adapters/host-runtime/src/token_output.rs succeeds.
use llm_app.Prelude.{
  ◌⊎◌, ℕ, ◌+◌, ◌≤◌, ◌<◌, ◌≡◌, refl, ◌↔◌, inl, inr, List, ◌∷◌, length, Result, ok, err, ◌>>=◌,
  Result-cases, arith,
}
use llm_app.Prelude.{u64_max}
use llm_app.HostRuntime.TokenOutput.{
  TokenOutputState, OutputPushError, Lock, Shared, append_tokens, ensure_record_capacity,
  checked_cursor, try_push_tokens, try_lock, committed,
}

module _ {ℓ} {S : Type ℓ} where
  append_tokens_iff :
      (request_id : ℕ) (items : List ℕ) (s : TokenOutputState S)
      → s.token_capacity < u64_max
      → s.record_capacity < u64_max
      → ((s' : TokenOutputState S) × (append_tokens request_id items s ≡ ok s')) ↔ (
          (length s.tokens + length items ≤ s.token_capacity)
          × (length s.records + 1 ≤ s.record_capacity)
          × (s.start + (length s.tokens + length items) ≤ u64_max))
  unfolding append_tokens ensure_record_capacity checked_cursor
  append_tokens_iff request_id items s small small' = (
    λ (s', h). (ground arith, ground arith, ground arith),
    λ (a, b, c). elim (Result-cases (append_tokens request_id items s)) [
      | inl (e, h) ↦ absurd (ground arith)
      | inr v ↦ v
    ],
  )

  committed_iff :
      (lock : Lock) (s : TokenOutputState S)
      (write : TokenOutputState S → Result OutputPushError (TokenOutputState S))
      → ((committed
            (record { lock = lock; guarded = s })
            (try_lock (record { lock = lock; guarded = s }) >>= write)).0
          ≡ ok tt)
        ↔ ((lock ≡ Lock.free) × (s' : TokenOutputState S) × (write s ≡ ok s'))
  committed_iff Lock.free s write = elim (Result-cases (write s)) [
    | inl (e, h) ↦ (λ done. absurd (ground arith), λ (free, s', g). absurd (ground arith))
    | inr (s', h) ↦ (λ done. (refl, s', h), λ (free, s'', g). ground arith)
  ]
  committed_iff Lock.held s write = (λ h. absurd (ground arith), λ r. absurd (ground (arith, r.0)))
  committed_iff Lock.poisoned s write =
      (λ h. absurd (ground arith), λ r. absurd (ground (arith, r.0)))

  committed_or :
      (shared : Shared S) (r : Result OutputPushError (TokenOutputState S))
      → ((committed shared r).0 ≡ ok tt) ⊎ ((committed shared r).1 ≡ shared)
  committed_or shared (err e) = inr refl
  committed_or shared (ok s) = inl refl

  -- Tokens are accepted exactly when neither the consumer holds the lock nor a panic poisoned it, when
  -- they and their record fit into the storage, and when the cursor behind them is a `u64`. A push
  -- that fails changes nothing. No vector is as long as the largest `usize`.
  pub try_push_tokens_iff :
      (request_id token : ℕ) (rest : List ℕ) (shared : Shared S)
      → shared.guarded.token_capacity < u64_max
      → shared.guarded.record_capacity < u64_max
      → (((try_push_tokens request_id (token ∷ rest) shared).0 ≡ ok tt) ↔ (
          (shared.lock ≡ Lock.free)
          × (length shared.guarded.tokens + length (token ∷ rest) ≤ shared.guarded.token_capacity)
          × (length shared.guarded.records + 1 ≤ shared.guarded.record_capacity)
          × (shared.guarded.start + (length shared.guarded.tokens + length (token ∷ rest))
              ≤ u64_max)))
        × (((try_push_tokens request_id (token ∷ rest) shared).0 ≡ ok tt)
            ⊎ ((try_push_tokens request_id (token ∷ rest) shared).1 ≡ shared))
  unfolding try_push_tokens
  try_push_tokens_iff request_id token rest shared small small' =
      let locked =
        committed_iff shared.lock shared.guarded (append_tokens request_id (token ∷ rest)) in
      let wrote = append_tokens_iff request_id (token ∷ rest) shared.guarded small small' in
      (
        (
          λ h. let (free, s', w) = locked.0 h in let (a, b, c) = wrote.0 (s', w) in (free, a, b, c),
          λ (free, a, b, c). let (s', w) = wrote.1 (a, b, c) in locked.1 (free, s', w),
        ),
        committed_or shared _,
      )
