-- ===== src/HostRuntime/TokenOutput/Stream.antt =====
-- The accumulator of crates/adapters/host-runtime/src/token_output.rs as a stream from its producers to its
-- consumer, under any interleaving of their calls.
pub mod Delivery
use llm_app.Prelude.{
  ℕ, ◌+◌, ◌≤◌, ◌<◌, ◌≡◌, Option, some, List, [], ◌∷◌, ◌++◌, length, Result, ok, err, arith,
}
use llm_app.Prelude.{u64_max, map}
use llm_app.HostRuntime.TokenOutput.{
  TokenOutputRecordKind, TokenOutputState, OutputPushError, Lock, Shared, append_tokens,
  append_state, ensure_record_capacity, checked_cursor, try_push_tokens, try_push_state, begin_pull,
  end_pull,
}
use llm_app.HostRuntime.TokenOutput.Ranges.{Entry, resolve_all}

-- One step of a producer or of the consumer. Between its two halves a pull runs the callback.
pub data Event {ℓ} (S : Type ℓ) : Type ℓ where
  pushes_tokens : ℕ → List ℕ → Event S
  pushes_state : ℕ → S → Event S
  begins_pull ends_pull panics : Event S

-- The accumulator, with what its producers were told is accepted and what its consumer read of the
-- batches that it drained.
pub record Journal {ℓ} (S : Type ℓ) : Type ℓ where
  pub shared : Shared S
  pub accepted : List (Entry S)
  pub delivered : List (Option (Entry S))

module _ {ℓ} {S : Type ℓ} where
  -- An empty slice is accepted without a record.
  abbrev pub entries_of : ℕ → List ℕ → List (Entry S)
  entries_of request_id [] = []
  entries_of request_id (token ∷ rest) = Entry.sent request_id (token ∷ rest) ∷ []

  abbrev pub noted :
      List (Entry S) → Result OutputPushError (Unit {0}) × Shared S → Journal S → Journal S
  noted entries (err e, shared) j = record j { shared = shared }
  noted entries (ok done, shared) j = record j { shared = shared; accepted = j.accepted ++ entries }

  abbrev pub read_batch : TokenOutputState S → List (Option (Entry S))
  read_batch s = resolve_all s.start s.tokens s.records

  pub step : Event S → Journal S → Journal S
  step (Event.pushes_tokens request_id items) j =
      noted (entries_of request_id items) (try_push_tokens request_id items j.shared) j
  step (Event.pushes_state request_id payload) j =
      noted (Entry.told request_id payload ∷ []) (try_push_state request_id payload j.shared) j
  step Event.begins_pull j = record j { shared = (begin_pull j.shared).1 }
  step Event.ends_pull j = elim j.shared.lock [
    | Lock.held ↦ record j {
      shared = end_pull j.shared;
      delivered = j.delivered ++ read_batch j.shared.guarded;
    }
    | _ ↦ j
  ]
  step Event.panics j = elim j.shared.lock [
    | Lock.held ↦ record j { shared = record j.shared { lock = Lock.poisoned } }
    | _ ↦ j
  ]

  unfoldable pub run : List (Event S) → Journal S → Journal S
  unfolding step
  run [] j = j
  run (event ∷ events) j = run events (step event j)

  -- The bounds of the storage and of the cursor. No vector is as long as the largest `usize`.
  pub record IsBounded (s : TokenOutputState S) : Type 0 where
    pub tokens_fit : length s.tokens ≤ s.token_capacity
    pub records_fit : length s.records ≤ s.record_capacity
    pub tokens_small : s.token_capacity < u64_max
    pub records_small : s.record_capacity < u64_max
    pub cursor : s.start + length s.tokens ≤ u64_max

  -- What is in flight is what was accepted after the last drained batch.
  pub record IsFaithful (j : Journal S) : Type ℓ where
    pub bounded : IsBounded j.shared.guarded
    pub past : List (Entry S)
    pub current : List (Entry S)
    pub read : j.delivered ≡ map some past
    pub stored : read_batch j.shared.guarded ≡ map some current
    pub whole : j.accepted ≡ past ++ current

  pub append_tokens_ok :
      (request_id : ℕ) (items : List ℕ) (s s' : TokenOutputState S)
      → IsBounded s
      → append_tokens request_id items s ≡ ok s'
      → (length s.tokens + length items ≤ s.token_capacity)
        × (length s.records + 1 ≤ s.record_capacity)
        × (s.start + (length s.tokens + length items) ≤ u64_max)
        × (s' ≡ record s {
          tokens = s.tokens ++ items;
          records =
              s.records
              ++ record {
                request_id = request_id;
                kind =
                    TokenOutputRecordKind.tokens
                      (record { start = s.start + length s.tokens; length = length items });
              }
                ∷ [];
        })
  unfolding append_tokens ensure_record_capacity checked_cursor
  append_tokens_ok request_id items s s' b h =
      (ground arith, ground arith, ground arith, ground arith)

  pub append_state_ok :
      (request_id : ℕ) (payload : S) (s s' : TokenOutputState S)
      → IsBounded s
      → append_state request_id payload s ≡ ok s'
      → (length s.records + 1 ≤ s.record_capacity)
        × (s' ≡ record s {
          records =
              s.records
              ++ record { request_id = request_id; kind = TokenOutputRecordKind.state payload }
                ∷ [];
        })
  unfolding append_state ensure_record_capacity
  append_state_ok request_id payload s s' b h = (ground arith, ground arith)
