-- ===== src/Tokenization/Utf8/Bytes.antt =====
-- One byte in the decoder of crates/features/tokenization/src/utf8.rs.
use llm_app.Prelude.{
  ℕ, suc, ◌<◌, ◌≡◌, sym, ap, subst, ◌∙◌, inl, inr, Bool, true, false, not, ◌==◌, ltb, if◌then◌else◌,
  List, [], ◌∷◌, ◌++◌, length, set, ok, Bool-cases, Option-cases, arith,
}
use llm_app.Prelude.{saturating_add, u8_max, take-set, length-set, append_assoc, append-nil}
use llm_app.Tokenization.Utf8.{
  with_decoder, expected_of, Decoding, Outcome, within, flush_complete, push_lead,
  push_continuation, push_byte,
}
use llm_app.Tokenization.Utf8.Text.{
  written, accepted, IsDecoding, pending_prefix, err-Accepts, reset-Accepts, ok-Accepts,
  flush_complete-Accepts, Accepts,
}

-- The decoder after it stored a byte.
abbrev pub stored : Decoding → ℕ → ℕ → Decoding
stored s byte expected =
    with_decoder s (set s.decoder.pending s.decoder.pending_length byte)
      (suc s.decoder.pending_length) expected

stored-IsDecoding :
    (s : Decoding) (byte expected : ℕ)
    → IsDecoding s
    → s.decoder.pending_length < 4
    → IsDecoding (stored s byte expected)
stored-IsDecoding s byte expected d room = record {
  array = length-set s.decoder.pending s.decoder.pending_length byte ∙ d.array;
  short = omega arith;
  valid = d.valid;
  text = d.text;
}

accepted-stored :
    (s : Decoding) (byte expected : ℕ)
    → IsDecoding s
    → s.decoder.pending_length < 4
    → accepted (stored s byte expected) ≡ accepted s ++ (byte ∷ [])
accepted-stored s byte expected d room =
    ap (λ (xs : List ℕ). written s ++ xs)
      (take-set s.decoder.pending_length s.decoder.pending byte (omega (arith, d.array)))
    ∙ sym (append_assoc (written s) (pending_prefix s) (byte ∷ []))

-- What follows the byte that was stored.
then-Accepts :
    (s s' : Decoding) (byte : ℕ) (o : Outcome)
    → accepted s' ≡ accepted s ++ (byte ∷ [])
    → Accepts [] s' o
    → Accepts (byte ∷ []) s o
then-Accepts s s' byte o e a = record {
  decoding = a.decoding;
  kept = λ h. a.kept h ∙ append-nil (accepted s') ∙ e;
}

stored-Accepts :
    (s : Decoding) (byte expected : ℕ) (o : Outcome)
    → IsDecoding s
    → s.decoder.pending_length < 4
    → (IsDecoding (stored s byte expected) → Accepts [] (stored s byte expected) o)
    → Accepts (byte ∷ []) s o
stored-Accepts s byte expected o d room f =
    then-Accepts s (stored s byte expected) byte o (accepted-stored s byte expected d room)
      (f (stored-IsDecoding s byte expected d room))

push_lead-Accepts :
    (byte : ℕ) (s : Decoding)
    → IsDecoding s
    → s.decoder.pending_length ≡ 0
    → Accepts (byte ∷ []) s (push_lead byte s)
unfolding push_lead
push_lead-Accepts byte s d z = elim (Bool-cases (ltb byte 0x80)) [
  | inl ascii ↦ rw ascii (
      subst
        (λ (n : ℕ).
          Accepts (byte ∷ []) s
            (flush_complete (with_decoder s (set s.decoder.pending n byte) (suc n) 1)))
        z (stored-Accepts s byte 1 _ d (omega arith) (flush_complete-Accepts (stored s byte 1))))
  | inr other ↦ elim (Option-cases (expected_of byte)) [
    | inl e ↦ rw (other, e) (err-Accepts (byte ∷ []) s _ d)
    | inr (expected, e) ↦
        rw (other, e)
          (subst
            (λ (n : ℕ).
              Accepts (byte ∷ []) s
                (ok tt, with_decoder s (set s.decoder.pending n byte) (suc n) expected))
            z
            (stored-Accepts s byte expected _ d (omega arith)
              (ok-Accepts (stored s byte expected))))
  ]
]

pub saturating_add_one : (n : ℕ) → n < 4 → suc n ≡ saturating_add u8_max n 1
saturating_add_one n h = ground arith

settled-Accepts :
    (s : Decoding) (early : Bool)
    → IsDecoding s
    → Accepts [] s (if early then (ok tt, s) else flush_complete s)
settled-Accepts s true d = ok-Accepts s d
settled-Accepts s false d = flush_complete-Accepts s d

push_continuation-Accepts :
    (byte : ℕ) (s : Decoding) → IsDecoding s → Accepts (byte ∷ []) s (push_continuation byte s)
unfolding push_continuation
push_continuation-Accepts byte s d = elim (Bool-cases (within 0x80 0xBF byte)) [
  | inr c ↦ rw c (reset-Accepts (byte ∷ []) s _ d)
  | inl c ↦ elim (Bool-cases (ltb s.decoder.pending_length (length s.decoder.pending))) [
    | inr f ↦ rw (c, f) (reset-Accepts (byte ∷ []) s _ d)
    | inl f ↦
        let room : s.decoder.pending_length < 4 = ground (arith, d.array) in
        rw (c, f)
          (subst
            (λ (n : ℕ). Accepts (byte ∷ []) s (
              if not (n == s.decoder.expected_length)
              then (
                ok tt,
                with_decoder s (set s.decoder.pending s.decoder.pending_length byte) n
                    s.decoder.expected_length,
              )
              else flush_complete (
                  with_decoder s (set s.decoder.pending s.decoder.pending_length byte) n
                    s.decoder.expected_length)))
            (saturating_add_one s.decoder.pending_length room)
            (stored-Accepts s byte s.decoder.expected_length _ d room (
              settled-Accepts (stored s byte s.decoder.expected_length)
                (not (suc s.decoder.pending_length == s.decoder.expected_length)))))
  ]
]

pub push_byte-Accepts :
    (byte : ℕ) (s : Decoding) → IsDecoding s → Accepts (byte ∷ []) s (push_byte byte s)
unfolding push_byte
push_byte-Accepts byte s d = elim (Bool-cases (s.decoder.pending_length == 0)) [
  | inl z ↦ rw z (push_lead-Accepts byte s d (ground arith))
  | inr z ↦ rw z (push_continuation-Accepts byte s d)
]
