-- ===== src/HostRuntime/TokenOutput/Stream/Delivery.antt =====
-- What the consumer of crates/adapters/host-runtime/src/token_output.rs reads.
use llm_app.Prelude.{
  ℕ, ◌<◌, ◌≡◌, refl, sym, ap, subst, ◌∙◌, true, some, List, [], ◌∷◌, ◌++◌, Result, ok, err, ◌>>=◌,
  arith,
}
use mathlib.Core.List.{map-append}
use llm_app.Prelude.{u64_max, map, append_assoc, append-nil, length-append}
use llm_app.HostRuntime.TokenOutput.{
  TokenOutputRecord, TokenOutputState, OutputPushError, Lock, Shared, token_output_accumulator,
  append_tokens, append_state, try_push_tokens, try_push_state, begin_pull, end_pull, committed,
  try_lock,
}
use llm_app.HostRuntime.TokenOutput.Ranges.{
  Entry, resolve_all, resolve_all-append_tokens, resolve_all-append, tokens_in_last, sent_by,
}
use llm_app.HostRuntime.TokenOutput.Stream.{
  Event, Journal, noted, read_batch, step, run, IsBounded, IsFaithful, append_tokens_ok,
  append_state_ok,
}

module _ {ℓ} {S : Type ℓ} where
  -- An accepted push, on the guarded state.
  accepted-IsFaithful :
      (j : Journal S) (s' : TokenOutputState S) (entry : Entry S) (f : IsFaithful j)
      → IsBounded s'
      → read_batch s' ≡ map some (f.current ++ entry ∷ [])
      → IsFaithful (record j {
        shared = record j.shared { guarded = s' };
        accepted = j.accepted ++ entry ∷ [];
      })
  accepted-IsFaithful j s' entry f b e = record {
    bounded = b;
    past = f.past;
    current = f.current ++ entry ∷ [];
    read = f.read;
    stored = e;
    whole = rw f.whole (append_assoc f.past f.current (entry ∷ []));
  }

  read_batch-append :
      (s : TokenOutputState S) (current : List (Entry S)) (entry : Entry S) (items : List ℕ)
      (r : TokenOutputRecord S)
      → read_batch s ≡ map some current
      → resolve_all s.start (s.tokens ++ items) (r ∷ []) ≡ some entry ∷ []
      → resolve_all s.start (s.tokens ++ items) (s.records ++ r ∷ [])
        ≡ map some (current ++ entry ∷ [])
  read_batch-append s current entry items r stored last =
      resolve_all-append s.start (s.tokens ++ items) s.records (r ∷ [])
      ∙ rw (resolve_all-append_tokens s.start s.tokens items s.records current stored, last)
          (sym (map-append some current (entry ∷ [])))

  append_tokens-IsFaithful :
      (request_id : ℕ) (items : List ℕ) (j : Journal S) (s' : TokenOutputState S)
      → IsFaithful j
      → append_tokens request_id items j.shared.guarded ≡ ok s'
      → IsFaithful (record j {
        shared = record j.shared { guarded = s' };
        accepted = j.accepted ++ Entry.sent request_id items ∷ [];
      })
  append_tokens-IsFaithful request_id items j s' f h =
      let s = j.shared.guarded in
      let (tokens_fit, records_fit, cursor, e) =
        append_tokens_ok request_id items s s' f.bounded h in
      accepted-IsFaithful j s' (Entry.sent request_id items) f
        (rw e (record {
          tokens_fit = omega (arith, length-append s.tokens items);
          records_fit = omega (arith, length-append s.records);
          tokens_small = f.bounded.tokens_small;
          records_small = f.bounded.records_small;
          cursor = omega (arith, length-append s.tokens items);
        }))
        (rw e (
          read_batch-append s f.current (Entry.sent request_id items) items _ f.stored
            (ap (λ o. sent_by request_id o ∷ []) (tokens_in_last s.start s.tokens items cursor))))

  append_state-IsFaithful :
      (request_id : ℕ) (payload : S) (j : Journal S) (s' : TokenOutputState S)
      → IsFaithful j
      → append_state request_id payload j.shared.guarded ≡ ok s'
      → IsFaithful (record j {
        shared = record j.shared { guarded = s' };
        accepted = j.accepted ++ Entry.told request_id payload ∷ [];
      })
  append_state-IsFaithful request_id payload j s' f h =
      let s = j.shared.guarded in
      let (records_fit, e) = append_state_ok request_id payload s s' f.bounded h in
      accepted-IsFaithful j s' (Entry.told request_id payload) f
        (rw e (record {
          tokens_fit = f.bounded.tokens_fit;
          records_fit = omega (arith, length-append s.records);
          tokens_small = f.bounded.tokens_small;
          records_small = f.bounded.records_small;
          cursor = f.bounded.cursor;
        }))
        (rw e (
          resolve_all-append s.start s.tokens s.records _
          ∙ rw f.stored (sym (map-append some f.current (Entry.told request_id payload ∷ [])))))

  locked_ok :
      (lock : Lock) (s s' : TokenOutputState S)
      (write : TokenOutputState S → Result OutputPushError (TokenOutputState S))
      → (try_lock (record { lock = lock; guarded = s }) >>= write) ≡ ok s'
      → write s ≡ ok s'
  locked_ok Lock.free s s' write h = h
  locked_ok Lock.held s s' write h = cc
  locked_ok Lock.poisoned s s' write h = cc

  noted-IsFaithful :
      (j : Journal S) (entry : Entry S) (r : Result OutputPushError (TokenOutputState S))
      → IsFaithful j
      → ((s' : TokenOutputState S)
          → r ≡ ok s'
          → IsFaithful (record j {
            shared = record j.shared { guarded = s' };
            accepted = j.accepted ++ entry ∷ [];
          }))
      → IsFaithful (noted (entry ∷ []) (committed j.shared r) j)
  noted-IsFaithful j entry (err e) f k = f
  noted-IsFaithful j entry (ok s') f k = k s' refl

  pushes_tokens-IsFaithful :
      (request_id : ℕ) (items : List ℕ) (j : Journal S)
      → IsFaithful j
      → IsFaithful (step (Event.pushes_tokens request_id items) j)
  unfolding step try_push_tokens
  pushes_tokens-IsFaithful request_id [] j f = record {
    bounded = f.bounded;
    past = f.past;
    current = f.current;
    read = f.read;
    stored = f.stored;
    whole = append-nil j.accepted ∙ f.whole;
  }
  pushes_tokens-IsFaithful request_id (token ∷ rest) j f =
      noted-IsFaithful j (Entry.sent request_id (token ∷ rest)) _ f (λ s' h.
        append_tokens-IsFaithful request_id (token ∷ rest) j s' f
          (locked_ok j.shared.lock j.shared.guarded s' (append_tokens request_id (token ∷ rest)) h))

  pushes_state-IsFaithful :
      (request_id : ℕ) (payload : S) (j : Journal S)
      → IsFaithful j
      → IsFaithful (step (Event.pushes_state request_id payload) j)
  unfolding step try_push_state
  pushes_state-IsFaithful request_id payload j f =
      noted-IsFaithful j (Entry.told request_id payload) _ f (λ s' h.
        append_state-IsFaithful request_id payload j s' f
          (locked_ok j.shared.lock j.shared.guarded s' (append_state request_id payload) h))

  locked-IsFaithful :
      (j : Journal S) (lock : Lock)
      → IsFaithful j
      → IsFaithful (record j { shared = record j.shared { lock = lock } })
  locked-IsFaithful j lock f = record {
    bounded = f.bounded;
    past = f.past;
    current = f.current;
    read = f.read;
    stored = f.stored;
    whole = f.whole;
  }

  drained-IsFaithful :
      (j : Journal S)
      → IsFaithful j
      → IsFaithful (record j {
        shared = end_pull j.shared;
        delivered = j.delivered ++ read_batch j.shared.guarded;
      })
  unfolding end_pull
  drained-IsFaithful j f = record {
    bounded = record {
      tokens_fit = omega arith;
      records_fit = omega arith;
      tokens_small = f.bounded.tokens_small;
      records_small = f.bounded.records_small;
      cursor = ground (arith, f.bounded.cursor);
    };
    past = f.past ++ f.current;
    current = [];
    read = rw (f.read, f.stored) (sym (map-append some f.past f.current));
    stored = refl;
    whole = f.whole ∙ sym (append-nil (f.past ++ f.current));
  }

  begin_pull_guarded : (shared : Shared S) → (begin_pull shared).1.guarded ≡ shared.guarded
  unfolding begin_pull
  begin_pull_guarded shared = ground arith

  begins_pull-IsFaithful : (j : Journal S) → IsFaithful j → IsFaithful (step Event.begins_pull j)
  unfolding step
  begins_pull-IsFaithful j f =
      subst
        (λ (s : TokenOutputState S).
          IsFaithful
            (record j { shared = record { lock = (begin_pull j.shared).1.lock; guarded = s } }))
        (sym (begin_pull_guarded j.shared)) (locked-IsFaithful j (begin_pull j.shared).1.lock f)

  step-IsFaithful : (event : Event S) (j : Journal S) → IsFaithful j → IsFaithful (step event j)
  unfolding step
  step-IsFaithful (Event.pushes_tokens request_id items) j f =
      pushes_tokens-IsFaithful request_id items j f
  step-IsFaithful (Event.pushes_state request_id payload) j f =
      pushes_state-IsFaithful request_id payload j f
  step-IsFaithful Event.begins_pull j f = begins_pull-IsFaithful j f
  step-IsFaithful Event.ends_pull j f = ended j.shared.lock
    where
      ended :
          (lock : Lock)
          → IsFaithful (elim lock [
            | Lock.held ↦ record j {
              shared = end_pull j.shared;
              delivered = j.delivered ++ read_batch j.shared.guarded;
            }
            | _ ↦ j
          ])
      ended Lock.held = drained-IsFaithful j f
      ended Lock.free = f
      ended Lock.poisoned = f
  step-IsFaithful Event.panics j f = poisoned j.shared.lock
    where
      poisoned :
          (lock : Lock)
          → IsFaithful (elim lock [
            | Lock.held ↦ record j { shared = record j.shared { lock = Lock.poisoned } }
            | _ ↦ j
          ])
      poisoned Lock.held = locked-IsFaithful j Lock.poisoned f
      poisoned Lock.free = f
      poisoned Lock.poisoned = f

  run-IsFaithful :
      (events : List (Event S)) (j : Journal S) → IsFaithful j → IsFaithful (run events j)
  unfolding run
  run-IsFaithful [] j f = f
  run-IsFaithful (event ∷ events) j f =
      run-IsFaithful events (step event j) (step-IsFaithful event j f)

  abbrev pub opened : Shared S → Journal S
  opened shared = record { shared = shared; accepted = []; delivered = [] }

  new-IsFaithful :
      (token_capacity record_capacity : ℕ) (shared : Shared S)
      → token_capacity < u64_max
      → record_capacity < u64_max
      → token_output_accumulator true true token_capacity record_capacity ≡ ok shared
      → IsFaithful (opened shared)
  unfolding token_output_accumulator
  new-IsFaithful token_capacity record_capacity shared small small' h =
      let start : Shared S = record {
        lock = Lock.free;
        guarded = record {
          start = 0;
          tokens = [];
          records = [];
          token_capacity = token_capacity;
          record_capacity = record_capacity;
        };
      } in
      let e : start ≡ shared = cc in
      subst (λ (s : Shared S). IsFaithful (opened s)) e
        (record {
          bounded = record {
            tokens_fit = omega arith;
            records_fit = omega arith;
            tokens_small = small;
            records_small = small';
            cursor = omega arith;
          };
          past = [];
          current = [];
          read = refl;
          stored = refl;
          whole = refl;
        })

  -- The accumulator is a stream: from a new one, under any interleaving of pushes, pulls and panics of
  -- the consumer, what the consumer read in the batches that it drained, followed by what the stored
  -- records stand for, is exactly what the pushes that succeeded were given, in their order. Every
  -- range resolves, and the storage never outgrows its capacities.
  pub run-accepted :
      (token_capacity record_capacity : ℕ) (events : List (Event S)) (shared : Shared S)
      → token_capacity < u64_max
      → record_capacity < u64_max
      → token_output_accumulator true true token_capacity record_capacity ≡ ok shared
      → ((run events (opened shared)).delivered
            ++ read_batch (run events (opened shared)).shared.guarded
          ≡ map some (run events (opened shared)).accepted)
        × IsBounded (run events (opened shared)).shared.guarded
  run-accepted token_capacity record_capacity events shared small small' h =
      let f =
        run-IsFaithful events (opened shared)
          (new-IsFaithful token_capacity record_capacity shared small small' h) in
      (rw (f.read, f.stored, f.whole) (sym (map-append some f.past f.current)), f.bounded)
