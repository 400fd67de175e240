-- ===== src/Tokenization/Utf8/Completeness.antt =====
-- The decoder of crates/features/tokenization/src/utf8.rs in the midst of a valid text: bytes that
-- continue a character.
use llm_app.Prelude.{
  ℕ, zero, suc, ◌+◌, ◌≤◌, ◌≡◌, refl, sym, ap, subst, ◌∙◌, inl, inr, Bool, true, false, not, ◌==◌,
  ltb, if◌then◌else◌, List, [], ◌∷◌, ◌++◌, length, set, ok, Bool-cases, arith,
}
use llm_app.Prelude.{take-set, length-set, append_assoc, append-nil}
use llm_app.Tokenization.Buffers.{remaining_capacity}
use llm_app.Tokenization.Utf8.{
  Decoding, Outcome, new, with_decoder, valid_from, valid_utf8, within, finish, flush_complete,
  push_lead, push_continuation,
}
use llm_app.Tokenization.Utf8
use llm_app.Tokenization.Utf8.Text.{pending_prefix}
use llm_app.Tokenization.Utf8.Bytes.{stored, saturating_add_one}
use llm_app.Tokenization.Utf8.Acceptance.{
  IsPartial, IsReady, Takes, flush_complete-Takes, stored-Takes, push_lead-Takes, valid_from_zero,
  valid_utf8-nil,
}

valid_from-within :
    (more lo hi byte : ℕ) (bytes : List ℕ)
    → valid_from (suc more) lo hi (byte ∷ bytes) ≡ true
    → (within lo hi byte ≡ true) × (valid_from more 0x80 0xBF bytes ≡ true)
unfolding valid_from
valid_from-within more lo hi byte bytes v = elim (Bool-cases (within lo hi byte)) [
  | inl w ↦ (w, ground arith)
  | inr w ↦ absurd (ground arith)
]

valid_from-continuation :
    (more lo hi byte : ℕ) (bytes : List ℕ)
    → within lo hi byte ≡ true
    → valid_from (suc more) lo hi (byte ∷ bytes) ≡ valid_from more 0x80 0xBF bytes
unfolding valid_from
valid_from-continuation more lo hi byte bytes w = rw w refl

settled-Takes :
    (rest : List ℕ) (s : Decoding) (early : Bool)
    → (early ≡ true → Takes 0 rest s (ok tt, s))
    → (early ≡ false → Takes 0 rest s (flush_complete s))
    → Takes 0 rest s (if early then (ok tt, s) else flush_complete s)
settled-Takes rest s true f g = f refl
settled-Takes rest s false f g = g refl

continues-stored :
    (byte more lo hi : ℕ) (s : Decoding)
    → IsPartial (suc more) lo hi s
    → within lo hi byte ≡ true
    → (xs : List ℕ)
    → valid_utf8 (pending_prefix (stored s byte s.decoder.expected_length) ++ xs)
      ≡ valid_from more 0x80 0xBF xs
continues-stored byte more lo hi s p w xs =
    ap (λ (ys : List ℕ). valid_utf8 (ys ++ xs))
      (take-set s.decoder.pending_length s.decoder.pending byte
        (omega (arith, p.array, p.expected, p.short)))
    ∙ ap valid_utf8 (append_assoc (pending_prefix s) (byte ∷ []) xs)
    ∙ p.continues (byte ∷ xs)
    ∙ valid_from-continuation more lo hi byte xs w

-- A byte that the pending character asks for.
push_next-Takes :
    (byte more lo hi : ℕ) (rest : List ℕ) (s : Decoding)
    → IsPartial (suc more) lo hi s
    → valid_from (suc more) lo hi (byte ∷ rest) ≡ true
    → s.decoder.pending_length + 1 ≤ remaining_capacity s.output
    → Takes 1 rest s (push_continuation byte s)
unfolding push_continuation
push_next-Takes byte more lo hi rest s p v fits =
    let d = s.decoder in
    let (w, r) = valid_from-within more lo hi byte rest v in
    let continuation : within 0x80 0xBF byte ≡ true = ground (arith, p.least, p.most) in
    let inside : ltb d.pending_length (length d.pending) ≡ true =
      ground (arith, p.array, p.expected, p.short) in
    let m = stored s byte d.expected_length in
    let array : length m.decoder.pending ≡ 4 =
      length-set d.pending d.pending_length byte ∙ p.array in
    let continues = continues-stored byte more lo hi s p w in
    rw (continuation, inside)
      (subst
        (λ (n : ℕ). Takes 1 rest s (
          if not (n == d.expected_length)
          then (ok tt, with_decoder s (set d.pending d.pending_length byte) n d.expected_length)
          else flush_complete
              (with_decoder s (set d.pending d.pending_length byte) n d.expected_length)))
        (saturating_add_one d.pending_length (omega (arith, p.expected, p.short)))
        (stored-Takes rest s (set d.pending d.pending_length byte) (suc d.pending_length)
          d.expected_length _ (omega arith)
          (settled-Takes rest m (not (suc d.pending_length == d.expected_length))
            (λ early. record {
              done = refl;
              ready = inr (
                more,
                0x80,
                0xBF,
                record {
                  array = array;
                  valid = p.valid;
                  begun = omega arith;
                  missing = ground (arith, p.expected);
                  expected = omega (arith, p.expected);
                  short = p.short;
                  least = omega arith;
                  most = omega arith;
                  continues = continues;
                },
                r,
              );
              room = refl;
              count = omega arith;
            })
            (λ late.
              let full : suc d.pending_length ≡ d.expected_length = ground arith in
              let z : more ≡ 0 = omega (arith, p.expected) in
              flush_complete-Takes rest m array p.valid (omega arith) (omega (arith, p.short)) full
                (ap valid_utf8 (sym (append-nil (pending_prefix m)))
                  ∙ continues []
                  ∙ valid_from_zero more 0x80 0xBF [] z
                  ∙ valid_utf8-nil)
                (omega arith) (sym (valid_from_zero more 0x80 0xBF rest z) ∙ r)))))

pub push_byte-Takes :
    (byte : ℕ) (rest : List ℕ) (s : Decoding)
    → IsReady (byte ∷ rest) s
    → s.decoder.pending_length + 1 ≤ remaining_capacity s.output
    → Takes 1 rest s (Utf8.push_byte byte s)
unfolding Utf8.push_byte
push_byte-Takes byte rest s (inl (i, v)) fits =
    let z : (s.decoder.pending_length == 0) ≡ true = ground (arith, i.empty) in
    rw z (push_lead-Takes byte rest s i v (omega arith))
push_byte-Takes byte rest s (inr (zero, lo, hi, p, v)) fits = absurd (omega (arith, p.missing))
push_byte-Takes byte rest s (inr (suc more, lo, hi, p, v)) fits =
    let z : (s.decoder.pending_length == 0) ≡ false = ground (arith, p.begun) in
    rw z (push_next-Takes byte more lo hi rest s p v fits)
