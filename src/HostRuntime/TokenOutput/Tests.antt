-- ===== src/HostRuntime/TokenOutput/Tests.antt =====
-- Runs of the accumulator of crates/adapters/host-runtime/src/token_output.rs, and its theorems at them.
use llm_app.Prelude.{
  ◌⊎◌, ℕ, ◌+◌, ◌≤◌, ◌≡◌, refl, ◌↔◌, true, some, List, [], ◌∷◌, ◌++◌, length, ok, arith,
}
use llm_app.Prelude.{u64_max, map}
use llm_app.HostRuntime.TokenOutput.{
  Lock, Shared, token_output_accumulator, append_tokens, append_state, try_push_tokens,
  try_push_state, begin_pull, end_pull, tokens_in,
}
use llm_app.HostRuntime.TokenOutput.Ranges.{Entry}
use llm_app.HostRuntime.TokenOutput.Stream.{Event, IsBounded, read_batch, run}
use llm_app.HostRuntime.TokenOutput.Stream.Delivery.{run-accepted, opened}
use llm_app.HostRuntime.TokenOutput.Pushes.{try_push_tokens_iff}

abbrev shared_3 : Shared ℕ
shared_3 = record {
  lock = Lock.free;
  guarded = record {
    start = 0;
    tokens = [];
    records = [];
    token_capacity = 3;
    record_capacity = 2;
  };
}

made : token_output_accumulator true true 3 2 ≡ ok shared_3
unfolding token_output_accumulator
made = refl

-- The third push finds no room, the fourth the consumer at work.
abbrev events : List (Event ℕ)
events =
    Event.pushes_tokens 7 (10 ∷ 11 ∷ [])
    ∷ Event.pushes_state 8 99
    ∷ Event.pushes_tokens 8 (12 ∷ [])
    ∷ Event.begins_pull
    ∷ Event.pushes_tokens 8 (13 ∷ [])
    ∷ Event.ends_pull
    ∷ Event.pushes_tokens 8 (14 ∷ [])
    ∷ []

run-events :
    (run events (opened shared_3)).delivered
    ≡ some (Entry.sent 7 (10 ∷ 11 ∷ [])) ∷ some (Entry.told 8 99) ∷ []
unfolding run try_push_tokens try_push_state begin_pull end_pull append_tokens append_state
    tokens_in
run-events = refl

run-accepted_example :
    ((run events (opened shared_3)).delivered
        ++ read_batch (run events (opened shared_3)).shared.guarded
      ≡ map some (run events (opened shared_3)).accepted)
    × IsBounded (run events (opened shared_3)).shared.guarded
run-accepted_example = run-accepted 3 2 events shared_3 (omega arith) (omega arith) made

try_push_tokens_iff_example :
    (((try_push_tokens 7 (10 ∷ 11 ∷ []) shared_3).0 ≡ ok tt) ↔ (
      (shared_3.lock ≡ Lock.free)
      × (length shared_3.guarded.tokens + 2 ≤ 3)
      × (length shared_3.guarded.records + 1 ≤ 2)
      × (0 + (length shared_3.guarded.tokens + 2) ≤ u64_max)))
    × (((try_push_tokens 7 (10 ∷ 11 ∷ []) shared_3).0 ≡ ok tt)
        ⊎ ((try_push_tokens 7 (10 ∷ 11 ∷ []) shared_3).1 ≡ shared_3))
try_push_tokens_iff_example =
    try_push_tokens_iff 7 10 (11 ∷ []) shared_3 (omega arith) (omega arith)
