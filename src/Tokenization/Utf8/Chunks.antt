-- ===== src/Tokenization/Utf8/Chunks.antt =====
-- Slices of bytes in the decoder of crates/features/tokenization/src/utf8.rs, and texts in chunks.
use llm_app.Prelude.{
  ℕ, ◌+◌, ◌≡◌, refl, sym, ap, subst, ◌∙◌, inl, inr, true, ltb, List, [], ◌∷◌, ◌++◌, length, Result,
  ok, err, Bool-cases, Result-cases, arith,
}
use llm_app.Prelude.{take, append_assoc, append-nil}
use llm_app.Tokenization.Buffers
use llm_app.Tokenization.Buffers.{
  as_slice, TokenizationError, SliceBuffer, push_str, remaining_capacity,
}
use llm_app.Tokenization.Buffers.Contents.{as_slice-take, new_lem}
use llm_app.Tokenization.Utf8.{
  finish, new, IncrementalUtf8Decoder, Decoding, Outcome, valid_utf8, flush_complete, push_byte,
  push_loop, push_flushed, push_bytes,
}
use llm_app.Tokenization.Utf8.Text.{
  written, accepted, IsDecoding, err-Accepts, ok-Accepts, flush_complete-Accepts, Accepts,
}
use llm_app.Tokenization.Utf8.Bytes.{push_byte-Accepts}

-- A write, and the loop after it when it succeeds.
push_flushed-Accepts :
    (first bytes : List ℕ) (s : Decoding) (o : Outcome)
    → ((m : Decoding) → IsDecoding m → Accepts bytes m (push_loop bytes m))
    → Accepts first s o
    → Accepts (first ++ bytes) s (push_flushed bytes o)
unfolding push_flushed
push_flushed-Accepts first bytes s (err e, m) f a = record {
  decoding = a.decoding;
  kept = λ h. absurd (ground arith);
}
push_flushed-Accepts first bytes s (ok done, m) f a =
    let w = f m a.decoding in
    record {
      decoding = w.decoding;
      kept = λ h. w.kept h ∙ rw (a.kept refl) (append_assoc (accepted s) first bytes);
    }

push_loop-push_flushed :
    (byte : ℕ) (bytes : List ℕ) (s m : Decoding) (r : Result TokenizationError (Unit {0}))
    → push_byte byte s ≡ (r, m)
    → push_loop (byte ∷ bytes) s ≡ push_flushed bytes (r, m)
unfolding push_flushed push_loop
push_loop-push_flushed byte bytes s m (err e) h = ground arith
push_loop-push_flushed byte bytes s m (ok done) h = ground arith

pub push_loop-nil : (s : Decoding) → push_loop [] s ≡ (ok tt, s)
unfolding push_loop
push_loop-nil s = refl

push_loop-Accepts :
    (bytes : List ℕ) (s : Decoding) → IsDecoding s → Accepts bytes s (push_loop bytes s)
push_loop-Accepts [] s d = rw (push_loop-nil s) (ok-Accepts s d)
push_loop-Accepts (byte ∷ bytes) s d =
    let o = push_byte byte s in
    rw (push_loop-push_flushed byte bytes s o.1 o.0 refl) (
      push_flushed-Accepts (byte ∷ []) bytes s o (push_loop-Accepts bytes)
        (push_byte-Accepts byte s d))

push_bytes-Accepts :
    (bytes : List ℕ) (s : Decoding) → IsDecoding s → Accepts bytes s (push_bytes bytes s)
unfolding push_bytes
push_bytes-Accepts bytes s d =
    elim (Bool-cases
      (ltb (remaining_capacity s.output) (s.decoder.pending_length + length bytes))) [
        | inl full ↦ rw full (err-Accepts bytes s _ d)
        | inr room ↦ rw room (
            push_flushed-Accepts [] bytes s (flush_complete s) (push_loop-Accepts bytes)
              (flush_complete-Accepts s d))
      ]

-- A call of the decoder's `push_bytes` over a text buffer keeps, whatever its outcome, that the
-- contents of the buffer are valid UTF-8, with no part of a character, and that at most four bytes
-- are pending. When it succeeds, the contents and the pending bytes after it are those before it and
-- all the given bytes after them: none is lost, added or moved.
pub push_bytes-IsDecoding :
    (bytes : List ℕ) (s : Decoding)
    → IsDecoding s
    → IsDecoding (push_bytes bytes s).1
      × ((push_bytes bytes s).0 ≡ ok tt → accepted (push_bytes bytes s).1 ≡ accepted s ++ bytes)
push_bytes-IsDecoding bytes s d = let a = push_bytes-Accepts bytes s d in (a.decoding, a.kept)

-- Calls of `push_bytes` in sequence, as far as they succeed.
unfoldable pub push_chunks : List (List ℕ) → Decoding → Outcome
push_chunks [] s = (ok tt, s)
push_chunks (chunk ∷ chunks) s =
    let (outcome, s') = push_bytes chunk s in
    elim outcome [ err e ↦ (err e, s') | ok done ↦ push_chunks chunks s' ]

abbrev pub joined : List (List ℕ) → List ℕ
joined [] = []
joined (chunk ∷ chunks) = chunk ++ joined chunks

push_chunks-accepted :
    (chunks : List (List ℕ)) (s s' : Decoding)
    → IsDecoding s
    → push_chunks chunks s ≡ (ok tt, s')
    → IsDecoding s' × (accepted s' ≡ accepted s ++ joined chunks)
unfolding push_chunks
push_chunks-accepted [] s s' d h =
    let e : s ≡ s' = ap (λ (o : Outcome). o.1) h in
    (subst IsDecoding e d, ap accepted (sym e) ∙ sym (append-nil (accepted s)))
push_chunks-accepted (chunk ∷ chunks) s s' d h = elim (Result-cases ((push_bytes chunk s).0)) [
  | inl (e, f) ↦ absurd (ground arith)
  | inr (done, f) ↦
      let a = push_bytes-Accepts chunk s d in
      let m = (push_bytes chunk s).1 in
      let rest : push_chunks chunks m ≡ (ok tt, s') = ground arith in
      let (d', e) = push_chunks-accepted chunks m s' a.decoding rest in
      (d', e ∙ rw (a.kept f) (append_assoc (accepted s) chunk (joined chunks)))
]

empty-IsDecoding :
    (storage : List ℕ)
    → IsDecoding (record { decoder = new; output = record { storage = storage; length = 0 } })
unfolding valid_utf8
empty-IsDecoding storage = record {
  array = refl;
  short = ground arith;
  valid = ground arith;
  text = refl;
}

finish_ok : (d : IncrementalUtf8Decoder) → finish d ≡ ok tt → d.pending_length ≡ 0
unfolding finish
finish_ok d f = ground arith

-- A text that comes in chunks, cut anywhere, through a new decoder into an empty buffer: when all
-- calls of `push_bytes` succeed and `finish` after them, then the buffer holds exactly the bytes of
-- the chunks one after the other, and they are valid UTF-8.
pub finish-push_chunks :
    (chunks : List (List ℕ)) (storage : List ℕ) (s' : Decoding)
    → push_chunks chunks (record { decoder = new; output = Buffers.new storage }) ≡ (ok tt, s')
    → finish s'.decoder ≡ ok tt
    → (as_slice s'.output ≡ joined chunks) × (valid_utf8 (joined chunks) ≡ true)
finish-push_chunks chunks storage s' h f =
    let output : SliceBuffer = record { storage = storage; length = 0 } in
    let start : Decoding = record { decoder = new; output = output } in
    let (d, e) = push_chunks-accepted chunks start s' (empty-IsDecoding storage) (
      ap (λ (b : SliceBuffer). push_chunks chunks (record { decoder = new; output = b }))
        (sym (new_lem storage))
      ∙ h) in
    let whole : written s' ≡ joined chunks =
      sym (append-nil (written s'))
      ∙ sym (ap (λ (n : ℕ). written s' ++ take n s'.decoder.pending) (finish_ok s'.decoder f))
      ∙ e in
    (
      as_slice-take s'.output d.valid ∙ whole,
      subst (λ (xs : List ℕ). valid_utf8 xs ≡ true) whole d.text,
    )
