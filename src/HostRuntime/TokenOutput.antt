-- ===== src/HostRuntime/TokenOutput.antt =====
-- crates/adapters/host-runtime/src/token_output.rs: the token accumulator between one producer side, which
-- never blocks, and a consumer that pulls. `Shared` is what the mutex guards beside its state: whether it
-- is free, held by the consumer during its callback, or poisoned by a panic there. A push is short, so
-- the consumer's `lock` and the producer's `try_lock` meet no other holder than that.
pub mod Ranges
pub mod Stream
pub mod Pushes
mod Tests
use llm_app.Prelude.{
  ℕ, zero, suc, ◌+◌, ◌-◌, Bool, true, false, ltb, leb, if◌then◌else◌, Option, none, some, List, [],
  ◌∷◌, ◌++◌, length, Result, ok, err, ok_or, ensure, ◌>>=◌, ◌>>◌, take, drop, u64_max, checked_add,
  saturating_add, ◌&&◌,
}
use llm_app.Contracts.Capacity.{CapacityResource, CapacityExhausted}

pub data OutputPushError : Type 0 where
  consumer_busy invalid_record_kind poisoned : OutputPushError
  capacity_exhausted : CapacityExhausted → OutputPushError

pub data OutputPullError : Type 0 where
  poisoned : OutputPullError

pub data TokenOutputInitializationError : Type 0 where
  token_storage record_storage : TokenOutputInitializationError

pub record TokenRange : Type 0 where
  pub start : ℕ
  pub length : ℕ

pub data TokenOutputRecordKind {ℓ} (S : Type ℓ) : Type ℓ where
  tokens : TokenRange → TokenOutputRecordKind S
  state : S → TokenOutputRecordKind S

pub record TokenOutputRecord {ℓ} (S : Type ℓ) : Type ℓ where
  pub request_id : ℕ
  pub kind : TokenOutputRecordKind S

pub record TokenOutputBatch {ℓ} (S : Type ℓ) : Type ℓ where
  pub start : ℕ
  pub end : ℕ
  pub tokens : List ℕ
  pub records : List (TokenOutputRecord S)

pub record TokenOutputState {ℓ} (S : Type ℓ) : Type ℓ where
  pub start : ℕ
  pub tokens : List ℕ
  pub records : List (TokenOutputRecord S)
  pub token_capacity : ℕ
  pub record_capacity : ℕ

pub data Lock : Type 0 where
  free held poisoned : Lock

pub record Shared {ℓ} (S : Type ℓ) : Type ℓ where
  pub lock : Lock
  pub guarded : TokenOutputState S

-- `get(offset..end)` of a slice.
abbrev pub get_range : List ℕ → ℕ → ℕ → Option (List ℕ)
get_range xs offset n =
    if leb (offset + n) (length xs) then some (take n (drop offset xs)) else none

abbrev pub exhausted : CapacityResource → ℕ → ℕ → OutputPushError
exhausted resource required available =
    OutputPushError.capacity_exhausted
      (record { resource = resource; required = required; available = available })

-- `tokens_for` on a batch's first cursor and tokens.
pub tokens_in : ℕ → List ℕ → TokenRange → Option (List ℕ)
tokens_in start items range =
    let offset = range.start - start in
    if leb start range.start && leb (offset + range.length) u64_max
    then get_range items offset range.length
    else none

module _ {ℓ} {S : Type ℓ} where
  abbrev pub tokens_for : TokenOutputBatch S → TokenRange → Option (List ℕ)
  tokens_for batch = tokens_in batch.start batch.tokens

  -- Whether the two allocations succeed is the host's choice.
  pub token_output_accumulator :
      (reserves_tokens reserves_records : Bool) (token_capacity record_capacity : ℕ)
      → Result TokenOutputInitializationError (Shared S)
  token_output_accumulator false reserves_records token_capacity record_capacity =
      err TokenOutputInitializationError.token_storage
  token_output_accumulator true false token_capacity record_capacity =
      err TokenOutputInitializationError.record_storage
  token_output_accumulator true true token_capacity record_capacity = ok (record {
    lock = Lock.free;
    guarded = record {
      start = 0;
      tokens = [];
      records = [];
      token_capacity = token_capacity;
      record_capacity = record_capacity;
    };
  })

  abbrev pub try_lock : Shared S → Result OutputPushError (TokenOutputState S)
  try_lock shared = elim shared.lock [
    | Lock.free ↦ ok shared.guarded
    | Lock.held ↦ err OutputPushError.consumer_busy
    | Lock.poisoned ↦ err OutputPushError.poisoned
  ]

  pub ensure_record_capacity : TokenOutputState S → Result OutputPushError (Unit {0})
  ensure_record_capacity s =
      let required = saturating_add u64_max (length s.records) 1 in
      if ltb s.record_capacity required
      then err (exhausted CapacityResource.output_records required s.record_capacity)
      else ok tt

  pub checked_cursor : TokenOutputState S → ℕ → Result OutputPushError ℕ
  checked_cursor s offset =
      ok_or (checked_add u64_max s.start offset)
        (exhausted CapacityResource.tokens offset (u64_max - s.start))

  abbrev pub checked_pull_cursor : TokenOutputState S → ℕ
  checked_pull_cursor s = saturating_add u64_max s.start (length s.tokens)

  -- What a successful lock lets the two pushes do to the guarded state.
  pub append_tokens : ℕ → List ℕ → TokenOutputState S → Result OutputPushError (TokenOutputState S)
  unfolding ensure_record_capacity checked_cursor
  append_tokens request_id items s = do
    let required_tokens = saturating_add u64_max (length s.tokens) (length items)
    ensure (leb required_tokens s.token_capacity)
        (exhausted CapacityResource.tokens required_tokens s.token_capacity)
    ensure_record_capacity s
    range_start ← checked_cursor s (length s.tokens)
    range_end ← checked_cursor s required_tokens
    ok (record s {
      tokens = s.tokens ++ items;
      records =
          s.records
          ++ record {
            request_id = request_id;
            kind =
                TokenOutputRecordKind.tokens
                  (record { start = range_start; length = length items });
          }
            ∷ [];
    })

  pub append_state : ℕ → S → TokenOutputState S → Result OutputPushError (TokenOutputState S)
  unfolding ensure_record_capacity
  append_state request_id payload s =
      ensure_record_capacity s
      >> ok (record s {
        records =
            s.records
            ++ record { request_id = request_id; kind = TokenOutputRecordKind.state payload } ∷ [];
      })

  -- The guarded state is written back when the guard is dropped.
  abbrev pub committed :
      Shared S
      → Result OutputPushError (TokenOutputState S)
      → Result OutputPushError (Unit {0}) × Shared S
  committed shared (err e) = (err e, shared)
  committed shared (ok s) = (ok tt, record shared { guarded = s })

  pub try_push_tokens : ℕ → List ℕ → Shared S → Result OutputPushError (Unit {0}) × Shared S
  unfolding append_tokens
  try_push_tokens request_id [] shared = (ok tt, shared)
  try_push_tokens request_id (token ∷ rest) shared =
      committed shared (try_lock shared >>= append_tokens request_id (token ∷ rest))

  pub try_push_token : ℕ → ℕ → Shared S → Result OutputPushError (Unit {0}) × Shared S
  unfolding try_push_tokens
  try_push_token request_id token = try_push_tokens request_id (token ∷ [])

  pub try_push_state : ℕ → S → Shared S → Result OutputPushError (Unit {0}) × Shared S
  unfolding append_state
  try_push_state request_id payload shared =
      committed shared (try_lock shared >>= append_state request_id payload)

  pub try_lengths : Shared S → Result OutputPushError (ℕ × ℕ)
  try_lengths shared = try_lock shared >>= λ s. ok (length s.tokens, length s.records)

  -- `pull` in its two halves. In between the consumer's callback runs on the batch with the lock held;
  -- a panic of the callback poisons the mutex.
  abbrev pub batch_of : TokenOutputState S → TokenOutputBatch S
  batch_of s = record {
    start = s.start;
    end = checked_pull_cursor s;
    tokens = s.tokens;
    records = s.records;
  }

  pub begin_pull : Shared S → Result OutputPullError (TokenOutputBatch S) × Shared S
  begin_pull shared = elim shared.lock [
    | Lock.poisoned ↦ (err OutputPullError.poisoned, shared)
    | _ ↦ (ok (batch_of shared.guarded), record shared { lock = Lock.held })
  ]

  pub end_pull : Shared S → Shared S
  end_pull shared = record {
    lock = Lock.free;
    guarded = record shared.guarded {
      start = checked_pull_cursor shared.guarded;
      tokens = [];
      records = [];
    };
  }

  pub pull {κ} :
      {R : Type κ} → (TokenOutputBatch S → R) → Shared S → Result OutputPullError R × Shared S
  unfolding begin_pull end_pull
  pull consume shared =
      let (begun, locked) = begin_pull shared in
      elim begun [ err e ↦ (err e, locked) | ok batch ↦ (ok (consume batch), end_pull locked) ]
