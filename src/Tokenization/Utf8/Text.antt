-- ===== src/Tokenization/Utf8/Text.antt =====
-- What the decoder of crates/features/tokenization/src/utf8.rs keeps and what `flush_complete` writes.
use llm_app.Prelude.{
  ℕ, zero, suc, ◌≤◌, ◌≡◌, refl, sym, ap, ◌∙◌, inl, inr, true, not, ◌||◌, ◌==◌, ltb, leb, List, [],
  ◌∷◌, ◌++◌, length, ok, err, Bool-cases, Option-cases, arith,
}
use llm_app.Prelude.{take, append-nil}
use llm_app.Tokenization.Buffers.{TokenizationError, SliceBuffer, push_str, remaining_capacity}
use llm_app.Tokenization.Buffers.Contents.{IsValid, push_str-Appends, push_str_full}
use llm_app.Tokenization.Utf8.{
  reset, Decoding, Outcome, valid_from, valid_utf8, lead_byte, within, emit, flush_fragment,
  flush_complete,
}

abbrev pub written : Decoding → List ℕ
written s = take s.output.length s.output.storage

-- The bytes that were accepted: those written, and those of the character that is pending.
abbrev pub accepted : Decoding → List ℕ
accepted s = written s ++ take s.decoder.pending_length s.decoder.pending

-- The states that the decoder reaches over a text buffer whose contents are UTF-8.
pub record IsDecoding (s : Decoding) : Type 0 where
  pub array : length s.decoder.pending ≡ 4
  pub short : s.decoder.pending_length ≤ 4
  pub valid : IsValid s.output
  pub text : valid_utf8 (written s) ≡ true

-- An outcome of an operation that takes `bytes`.
pub record Accepts (bytes : List ℕ) (s : Decoding) (o : Outcome) : Type 0 where
  pub decoding : IsDecoding o.1
  pub kept : o.0 ≡ ok tt → accepted o.1 ≡ accepted s ++ bytes

valid_from-append :
    (more lo hi : ℕ) (xs ys : List ℕ)
    → valid_from more lo hi xs ≡ true
    → valid_utf8 ys ≡ true
    → valid_from more lo hi (xs ++ ys) ≡ true
unfolding valid_from valid_utf8
valid_from-append zero lo hi [] [] v w = refl
valid_from-append zero lo hi [] (y ∷ ys) v w = w
valid_from-append zero lo hi (x ∷ xs) ys v w = elim (Option-cases (lead_byte x)) [
  | inl e ↦ absurd (ground arith)
  | inr (l, e) ↦
      let rest : valid_from l.more l.lo l.hi (xs ++ ys) ≡ true =
        valid_from-append l.more l.lo l.hi xs ys (ground arith) w in
      ground arith
]
valid_from-append (suc more) lo hi [] ys v w = absurd (ground arith)
valid_from-append (suc more) lo hi (x ∷ xs) ys v w = elim (Bool-cases (within lo hi x)) [
  | inl e ↦
      let rest : valid_from more 0x80 0xBF (xs ++ ys) ≡ true =
        valid_from-append more 0x80 0xBF xs ys (ground arith) w in
      ground arith
  | inr e ↦ absurd (ground arith)
]

abbrev pub pending_prefix : Decoding → List ℕ
pending_prefix s = take s.decoder.pending_length s.decoder.pending

emit_err :
    (text : List ℕ) (s : Decoding) (e : TokenizationError) (b : SliceBuffer)
    → push_str text s.output ≡ (err e, b)
    → emit text s ≡ (err e, record s { output = b })
unfolding emit
emit_err text s e b h = ground arith

pub emit_ok :
    (text : List ℕ) (s : Decoding) (b : SliceBuffer)
    → push_str text s.output ≡ (ok tt, b)
    → emit text s ≡ (ok tt, record { decoder = reset s.decoder; output = b })
unfolding emit
emit_ok text s b h = ground arith

emit-Accepts :
    (text : List ℕ) (s : Decoding)
    → IsDecoding s
    → valid_utf8 text ≡ true
    → pending_prefix s ≡ text
    → Accepts [] s (emit text s)
unfolding valid_utf8
emit-Accepts text s d v p = elim (Bool-cases (ltb (remaining_capacity s.output) (length text))) [
  | inl full ↦
      rw (emit_err text s _ s.output (push_str_full text s.output (ground arith)))
        (record { decoding = d; kept = λ h. absurd (ground arith) })
  | inr fits ↦
      let (b, e, w) = push_str-Appends text s.output d.valid (ground arith) in
      rw (emit_ok text s b e) (record {
        decoding = record {
          array = refl;
          short = ground arith;
          valid = w.valid;
          text = rw w.contents (valid_from-append 0 0x80 0xBF (written s) text d.text v);
        };
        kept = λ h.
            ap (λ (xs : List ℕ). xs ++ [])
              (w.contents ∙ ap (λ (xs : List ℕ). written s ++ xs) (sym p));
      })
]

pub err-Accepts :
    (bytes : List ℕ) (s : Decoding) (e : TokenizationError)
    → IsDecoding s
    → Accepts bytes s (err e, s)
err-Accepts bytes s e d = record { decoding = d; kept = λ h. absurd (ground arith) }

pub reset-Accepts :
    (bytes : List ℕ) (s : Decoding) (e : TokenizationError)
    → IsDecoding s
    → Accepts bytes s (err e, record s { decoder = reset s.decoder })
reset-Accepts bytes s e d = record {
  decoding = record { array = refl; short = ground arith; valid = d.valid; text = d.text };
  kept = λ h. absurd (ground arith);
}

pub ok-Accepts : (s : Decoding) → IsDecoding s → Accepts [] s (ok tt, s)
ok-Accepts s d = record { decoding = d; kept = λ h. sym (append-nil (accepted s)) }

flush_fragment-Accepts :
    (fragment : List ℕ) (s : Decoding)
    → IsDecoding s
    → pending_prefix s ≡ fragment
    → Accepts [] s (flush_fragment fragment s)
unfolding flush_fragment
flush_fragment-Accepts fragment s d p = elim (Bool-cases (valid_utf8 fragment)) [
  | inl v ↦ rw v (emit-Accepts fragment s d v p)
  | inr v ↦ rw v (reset-Accepts [] s _ d)
]

pub flush_complete-Accepts : (s : Decoding) → IsDecoding s → Accepts [] s (flush_complete s)
unfolding flush_complete
flush_complete-Accepts s d =
    elim (Bool-cases (
      (s.decoder.pending_length == 0)
      || not (s.decoder.pending_length == s.decoder.expected_length))) [
        | inl c ↦ rw c (ok-Accepts s d)
        | inr c ↦
            let same : s.decoder.pending_length ≡ s.decoder.expected_length = ground arith in
            elim (Bool-cases (leb s.decoder.expected_length (length s.decoder.pending))) [
              | inl f ↦
                  rw (c, f)
                    (flush_fragment-Accepts (take s.decoder.expected_length s.decoder.pending) s d
                      (ap (λ (n : ℕ). take n s.decoder.pending) same))
              | inr f ↦ rw (c, f) (reset-Accepts [] s _ d)
            ]
      ]
