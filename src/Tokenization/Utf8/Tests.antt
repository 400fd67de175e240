-- ===== src/Tokenization/Utf8/Tests.antt =====
-- Runs of the decoder of crates/features/tokenization/src/utf8.rs.
use llm_app.Prelude.{ℕ, ◌≡◌, refl, true, List, [], ◌∷◌, ◌++◌, ok, err, arith}
use llm_app.Tokenization.Buffers
use llm_app.Tokenization.Buffers.{TokenizationError, SliceBuffer, as_slice, push_str}
use llm_app.Tokenization.Utf8.{
  Decoding, new, lead_byte, valid_from, valid_utf8, emit, flush_fragment, flush_complete, push_lead,
  push_continuation, push_byte, push_loop, push_flushed, push_bytes, finish,
}
use llm_app.Tokenization.Utf8.Text.{IsDecoding, accepted}
use llm_app.Tokenization.Utf8.Decoded.{push_chunks-valid_utf8}
use llm_app.Tokenization.Utf8.Chunks.{
  push_bytes-IsDecoding, push_chunks, joined, finish-push_chunks,
}

-- "aé", cut inside the second character.
abbrev pieces : List (List ℕ)
pieces = (0x61 ∷ 0xC3 ∷ []) ∷ (0xA9 ∷ []) ∷ []

abbrev slice : List ℕ
slice = 0 ∷ 0 ∷ 0 ∷ 0 ∷ []

abbrev done : Decoding
done = record {
  decoder = new;
  output = record { storage = 0x61 ∷ 0xC3 ∷ 0xA9 ∷ 0 ∷ []; length = 3 };
}

pieces_run :
    push_chunks pieces (record { decoder = new; output = Buffers.new slice }) ≡ (ok tt, done)
unfolding push_chunks push_bytes push_flushed push_loop push_byte push_lead push_continuation
    flush_complete flush_fragment emit valid_utf8 valid_from lead_byte push_str Buffers.new
pieces_run = refl

finish_done : finish done.decoder ≡ ok tt
unfolding finish
finish_done = refl

finish-push_chunks_example :
    (as_slice done.output ≡ joined pieces) × (valid_utf8 (joined pieces) ≡ true)
finish-push_chunks_example = finish-push_chunks pieces slice done pieces_run finish_done

-- After the first piece: one byte is written and one is pending.
abbrev midway : Decoding
midway = record {
  decoder = record { pending = 0xC3 ∷ 0 ∷ 0 ∷ 0 ∷ []; pending_length = 1; expected_length = 2 };
  output = record { storage = 0x61 ∷ 0 ∷ 0 ∷ 0 ∷ []; length = 1 };
}

midway-IsDecoding : IsDecoding midway
unfolding valid_utf8 valid_from lead_byte
midway-IsDecoding = record { array = refl; short = ground arith; valid = ground arith; text = refl }

push_bytes-IsDecoding_example :
    IsDecoding (push_bytes (0xA9 ∷ []) midway).1
    × ((push_bytes (0xA9 ∷ []) midway).0 ≡ ok tt
        → accepted (push_bytes (0xA9 ∷ []) midway).1 ≡ accepted midway ++ (0xA9 ∷ []))
push_bytes-IsDecoding_example = push_bytes-IsDecoding (0xA9 ∷ []) midway midway-IsDecoding

-- An overlong form is refused by the last byte that completes it.
overlong_run :
    (push_bytes (0xE0 ∷ 0x80 ∷ 0x80 ∷ []) (record { decoder = new; output = Buffers.new slice })).0
    ≡ err (TokenizationError.invalid_utf8 0x80)
unfolding push_bytes push_flushed push_loop push_byte push_lead push_continuation flush_complete
    flush_fragment emit valid_utf8 valid_from lead_byte push_str Buffers.new
overlong_run = refl

pieces_valid : valid_utf8 (joined pieces) ≡ true
unfolding valid_utf8 valid_from lead_byte
pieces_valid = refl

push_chunks-valid_utf8_example :
    (s' : Decoding) × (push_chunks pieces (record { decoder = new; output = Buffers.new slice })
      ≡ (ok tt, s'))
    × (finish s'.decoder ≡ ok tt)
    × (as_slice s'.output ≡ joined pieces)
push_chunks-valid_utf8_example = push_chunks-valid_utf8 pieces slice pieces_valid (ground arith)
