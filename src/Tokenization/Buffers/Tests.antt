-- ===== src/Tokenization/Buffers/Tests.antt =====
-- A buffer of crates/features/tokenization/src/sink.rs, and its theorem at it.
use llm_app.Prelude.{◌≤◌, ◌<◌, ◌≡◌, refl, [], ◌∷◌, ◌++◌, ok, err, arith}
use llm_app.Contracts.Capacity.{CapacityResource}
use llm_app.Tokenization.Buffers.{
  SliceBuffer, exhausted, as_slice, push_items, push_tokens, push_loop, push_item,
}
use llm_app.Tokenization.Buffers.Contents.{IsValid, push_items-append}

-- Room for two more tokens.
abbrev buffer : SliceBuffer
buffer = record { storage = 5 ∷ 6 ∷ 0 ∷ 0 ∷ []; length = 2 }

two_fit :
    push_tokens (7 ∷ 8 ∷ []) buffer ≡ (ok tt, record { storage = 5 ∷ 6 ∷ 7 ∷ 8 ∷ []; length = 4 })
unfolding push_tokens push_loop push_item
two_fit = refl

push_items-append_example :
    (2 ≤ 2
      → (b' : SliceBuffer) × (push_items CapacityResource.tokens (7 ∷ 8 ∷ []) buffer ≡ (ok tt, b'))
        × IsValid b'
        × (as_slice b' ≡ as_slice buffer ++ 7 ∷ 8 ∷ []))
    × (2 < 2
        → push_items CapacityResource.tokens (7 ∷ 8 ∷ []) buffer
          ≡ (err (exhausted CapacityResource.tokens 2 2), buffer))
push_items-append_example =
    push_items-append CapacityResource.tokens (7 ∷ 8 ∷ []) buffer (omega arith)
