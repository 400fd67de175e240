-- ===== src/Tokenization/Utf8/Decoded.antt =====
-- Whole texts through the decoder of crates/features/tokenization/src/utf8.rs, in chunks.
use llm_app.Prelude.{
  ℕ, zero, suc, ◌+◌, ◌≤◌, ◌≡◌, refl, ap, ◌∙◌, inl, inr, true, false, ltb, List, [], ◌∷◌, ◌++◌,
  length, Result, ok, arith,
}
use llm_app.Prelude.{length-append}
use llm_app.Tokenization.Buffers
use llm_app.Tokenization.Buffers.{SliceBuffer, remaining_capacity, as_slice, TokenizationError}
use llm_app.Tokenization.Buffers.Contents.{new_lem}
use llm_app.Tokenization.Utf8
use llm_app.Tokenization.Utf8.{
  Decoding, Outcome, new, valid_from, valid_utf8, finish, flush_complete, push_flushed,
}
use llm_app.Tokenization.Utf8.Chunks.{push_loop-nil, push_chunks, joined, finish-push_chunks}
use llm_app.Tokenization.Utf8.Acceptance.{IsReady, Takes}
use llm_app.Tokenization.Utf8.Completeness.{push_byte-Takes}

-- Nothing to do, and one operation after another.
Takes-none : (rest : List ℕ) (s : Decoding) → IsReady rest s → Takes 0 rest s (ok tt, s)
Takes-none rest s r = record { done = refl; ready = r; room = refl; count = omega arith }

Takes-then :
    (m n k : ℕ) (rest rest' : List ℕ) (s : Decoding) (o o' : Outcome)
    → Takes m rest' s o
    → Takes n rest o.1 o'
    → k ≡ m + n
    → Takes k rest s o'
Takes-then m n k rest rest' s o o' a b e = record {
  done = b.done;
  ready = b.ready;
  room = b.room ∙ a.room;
  count = omega (arith, a.count, b.count);
}

done_eq : (n : ℕ) (rest : List ℕ) (s : Decoding) (o : Outcome) → Takes n rest s o → o ≡ (ok tt, o.1)
done_eq n rest s o a = ap (λ (r : Result TokenizationError (Unit {0})). (r, o.1)) a.done

push_loop-next :
    (byte : ℕ) (bytes : List ℕ) (s m : Decoding)
    → Utf8.push_byte byte s ≡ (ok tt, m)
    → Utf8.push_loop (byte ∷ bytes) s ≡ Utf8.push_loop bytes m
unfolding Utf8.push_loop
push_loop-next byte bytes s m e = ground arith

push_loop-Takes :
    (bytes rest : List ℕ) (s : Decoding)
    → IsReady (bytes ++ rest) s
    → s.decoder.pending_length + length bytes ≤ remaining_capacity s.output
    → Takes (length bytes) rest s (Utf8.push_loop bytes s)
push_loop-Takes [] rest s r fits = rw (push_loop-nil s) (Takes-none rest s r)
push_loop-Takes (byte ∷ bytes) rest s r fits =
    let o = Utf8.push_byte byte s in
    let a = push_byte-Takes byte (bytes ++ rest) s r (omega arith) in
    rw (push_loop-next byte bytes s o.1 (done_eq 1 (bytes ++ rest) s o a)) (
      Takes-then 1 (length bytes) (suc (length bytes)) rest (bytes ++ rest) s o
        (Utf8.push_loop bytes o.1) a
        (push_loop-Takes bytes rest o.1 a.ready (omega (arith, a.room, a.count))) (omega arith))

flush_complete-IsReady :
    (rest : List ℕ) (s : Decoding) → IsReady rest s → flush_complete s ≡ (ok tt, s)
unfolding flush_complete
flush_complete-IsReady rest s (inl (i, v)) = ground (arith, i.empty)
flush_complete-IsReady rest s (inr (more, lo, hi, p, v)) = ground (arith, p.expected, p.missing)

push_bytes-Takes :
    (bytes rest : List ℕ) (s : Decoding)
    → IsReady (bytes ++ rest) s
    → s.decoder.pending_length + length bytes ≤ remaining_capacity s.output
    → Takes (length bytes) rest s (Utf8.push_bytes bytes s)
unfolding Utf8.push_bytes push_flushed
push_bytes-Takes bytes rest s r fits =
    let room : ltb (remaining_capacity s.output) (s.decoder.pending_length + length bytes) ≡ false =
      ground arith in
    rw (room, flush_complete-IsReady (bytes ++ rest) s r) (push_loop-Takes bytes rest s r fits)

push_chunks-next :
    (chunk : List ℕ) (chunks : List (List ℕ)) (s m : Decoding)
    → Utf8.push_bytes chunk s ≡ (ok tt, m)
    → push_chunks (chunk ∷ chunks) s ≡ push_chunks chunks m
unfolding push_chunks
push_chunks-next chunk chunks s m e = ground arith

push_chunks-nil : (s : Decoding) → push_chunks [] s ≡ (ok tt, s)
unfolding push_chunks
push_chunks-nil s = refl

push_chunks-Takes :
    (chunks : List (List ℕ)) (s : Decoding)
    → IsReady (joined chunks) s
    → s.output.length + s.decoder.pending_length + length (joined chunks) ≤ length s.output.storage
    → Takes (length (joined chunks)) [] s (push_chunks chunks s)
push_chunks-Takes [] s r fits = rw (push_chunks-nil s) (Takes-none [] s r)
push_chunks-Takes (chunk ∷ chunks) s r fits =
    let o = Utf8.push_bytes chunk s in
    let size = length-append chunk (joined chunks) in
    let a = push_bytes-Takes chunk (joined chunks) s r (omega (arith, size)) in
    rw (push_chunks-next chunk chunks s o.1 (done_eq (length chunk) (joined chunks) s o a), size)
      (Takes-then (length chunk) (length (joined chunks)) (length chunk + length (joined chunks)) []
        (joined chunks) s o (push_chunks chunks o.1) a
        (push_chunks-Takes chunks o.1 a.ready (omega (arith, size, a.room, a.count))) refl)

-- At the end of the text no character can be pending.
finish-IsReady : (s : Decoding) → IsReady [] s → finish s.decoder ≡ ok tt
unfolding finish valid_from
finish-IsReady s (inl (i, v)) = ground (arith, i.empty)
finish-IsReady s (inr (zero, lo, hi, p, v)) = absurd (omega (arith, p.missing))
finish-IsReady s (inr (suc more, lo, hi, p, v)) = absurd (ground arith)

new-IsReady :
    (text storage : List ℕ)
    → valid_utf8 text ≡ true
    → IsReady text (record { decoder = new; output = record { storage = storage; length = 0 } })
new-IsReady text storage v = inl (record { array = refl; valid = ground arith; empty = refl }, v)

-- A valid UTF-8 text that fits into the slice is decoded, however it is cut into chunks: from a new
-- decoder and an empty buffer every call of `push_bytes` succeeds, `finish` succeeds after them, and the
-- buffer then holds exactly the text.
pub push_chunks-valid_utf8 :
    (chunks : List (List ℕ)) (storage : List ℕ)
    → valid_utf8 (joined chunks) ≡ true
    → length (joined chunks) ≤ length storage
    → (s' : Decoding) × (push_chunks chunks (record { decoder = new; output = Buffers.new storage })
        ≡ (ok tt, s'))
      × (finish s'.decoder ≡ ok tt)
      × (as_slice s'.output ≡ joined chunks)
push_chunks-valid_utf8 chunks storage v fits =
    let start : Decoding = record {
      decoder = new;
      output = record { storage = storage; length = 0 };
    } in
    let o = push_chunks chunks start in
    let a = push_chunks-Takes chunks start (new-IsReady (joined chunks) storage v) (omega arith) in
    let run : push_chunks chunks (record { decoder = new; output = Buffers.new storage })
        ≡ (ok tt, o.1) =
      rw (new_lem storage) (done_eq (length (joined chunks)) [] start o a) in
    let finished = finish-IsReady o.1 a.ready in
    (o.1, run, finished, (finish-push_chunks chunks storage o.1 run finished).0)
