-- ===== src/Tokenization/Utf8/Acceptance.antt =====
-- The decoder of crates/features/tokenization/src/utf8.rs in the midst of a valid text: lead bytes.
use llm_app.Prelude.{
  ℕ, zero, suc, ◌+◌, ◌≤◌, ◌≡◌, refl, sym, subst, ◌∙◌, ◌⊎◌, inl, inr, true, false, not, ◌||◌, ◌==◌,
  ltb, leb, some, List, [], ◌∷◌, ◌++◌, length, set, ok, Bool-cases, Option-cases, arith,
}
use llm_app.Prelude.{take, length-set}
use llm_app.Tokenization.Buffers.{remaining_capacity}
use llm_app.Tokenization.Buffers.Contents.{length-take-le, IsValid, push_str-Appends}
use llm_app.Tokenization.Utf8.{
  Lead, Decoding, Outcome, with_decoder, expected_of, valid_from, valid_utf8, lead_byte, emit,
  flush_fragment, flush_complete, push_lead,
}
use llm_app.Tokenization.Utf8.Text.{pending_prefix, emit_ok}

-- No character is pending.
pub record IsIdle (s : Decoding) : Type 0 where
  pub array : length s.decoder.pending ≡ 4
  pub valid : IsValid s.output
  pub empty : s.decoder.pending_length ≡ 0

-- A character is pending that misses `more` bytes, the first of them from `lo` to `hi`.
pub record IsPartial (more lo hi : ℕ) (s : Decoding) : Type 0 where
  pub array : length s.decoder.pending ≡ 4
  pub valid : IsValid s.output
  pub begun : 1 ≤ s.decoder.pending_length
  pub missing : 1 ≤ more
  pub expected : s.decoder.expected_length ≡ s.decoder.pending_length + more
  pub short : s.decoder.expected_length ≤ 4
  pub least : 0x80 ≤ lo
  pub most : hi ≤ 0xBF
  pub continues : (xs : List ℕ) → valid_utf8 (pending_prefix s ++ xs) ≡ valid_from more lo hi xs

-- The decoder can go on with `rest`: with what is pending it is a valid text.
abbrev pub IsReady : List ℕ → Decoding → Type 0
IsReady rest s =
    (IsIdle s × (valid_utf8 rest ≡ true))
    ⊎ ((more : ℕ) × (lo : ℕ) × (hi : ℕ) × IsPartial more lo hi s
        × (valid_from more lo hi rest ≡ true))

-- A successful operation that takes `n` bytes, with `rest` to come.
pub record Takes (n : ℕ) (rest : List ℕ) (s : Decoding) (o : Outcome) : Type 0 where
  pub done : o.0 ≡ ok tt
  pub ready : IsReady rest o.1
  pub room : length o.1.output.storage ≡ length s.output.storage
  pub count :
      o.1.output.length + o.1.decoder.pending_length
      ≡ s.output.length + s.decoder.pending_length + n

pub emit-Takes :
    (text rest : List ℕ) (s : Decoding)
    → IsValid s.output
    → length text ≡ s.decoder.pending_length
    → length text ≤ remaining_capacity s.output
    → valid_utf8 rest ≡ true
    → Takes 0 rest s (emit text s)
emit-Takes text rest s v size fits r =
    let (b, e, w) = push_str-Appends text s.output v fits in
    rw (emit_ok text s b e) (record {
      done = refl;
      ready = inl (record { array = refl; valid = w.valid; empty = refl }, r);
      room = w.room;
      count = omega (arith, w.counted);
    })

-- The pending bytes are a character, and there is room for it.
pub flush_complete-Takes :
    (rest : List ℕ) (s : Decoding)
    → length s.decoder.pending ≡ 4
    → IsValid s.output
    → 1 ≤ s.decoder.pending_length
    → s.decoder.pending_length ≤ 4
    → s.decoder.pending_length ≡ s.decoder.expected_length
    → valid_utf8 (pending_prefix s) ≡ true
    → s.decoder.pending_length ≤ remaining_capacity s.output
    → valid_utf8 rest ≡ true
    → Takes 0 rest s (flush_complete s)
unfolding flush_complete flush_fragment
flush_complete-Takes rest s array v begun short same c fits r =
    let d = s.decoder in
    let skip : ((d.pending_length == 0) || not (d.pending_length == d.expected_length)) ≡ false =
      ground arith in
    let within_array : leb d.expected_length (length d.pending) ≡ true = ground arith in
    let valid : valid_utf8 (take d.expected_length d.pending) ≡ true =
      subst (λ (n : ℕ). valid_utf8 (take n d.pending) ≡ true) same c in
    let size : length (take d.expected_length d.pending) ≡ d.expected_length =
      length-take-le d.expected_length d.pending (omega arith) in
    rw (skip, within_array, valid)
      (emit-Takes (take d.expected_length d.pending) rest s v (omega arith) (omega arith) r)

-- What the decoder and the standard say of a lead byte.
pub record IsLead (byte : ℕ) (l : Lead) : Type 0 where
  pub other : ltb byte 0x80 ≡ false
  pub expects : expected_of byte ≡ some (1 + l.more)
  pub missing : 1 ≤ l.more
  pub short : l.more ≤ 3
  pub least : 0x80 ≤ l.lo
  pub most : l.hi ≤ 0xBF

lead_byte-cases :
    (byte : ℕ) (l : Lead)
    → lead_byte byte ≡ some l
    → ((ltb byte 0x80 ≡ true) × (l.more ≡ 0)) ⊎ IsLead byte l
unfolding lead_byte
lead_byte-cases byte l h = elim (Bool-cases (leb byte 0x7F)) [
  | inl a ↦ inl (ground arith, ground arith)
  | inr a ↦ inr (record {
    other = ground arith;
    expects = ground arith;
    missing = ground arith;
    short = ground arith;
    least = ground arith;
    most = ground arith;
  })
]

valid_utf8-lead :
    (byte : ℕ) (bytes : List ℕ) (l : Lead)
    → lead_byte byte ≡ some l
    → valid_utf8 (byte ∷ bytes) ≡ valid_from l.more l.lo l.hi bytes
unfolding valid_utf8 valid_from
valid_utf8-lead byte bytes l e = ground arith

-- Between characters the range does not matter.
pub valid_from_zero :
    (more lo hi : ℕ) (xs : List ℕ) → more ≡ 0 → valid_from more lo hi xs ≡ valid_utf8 xs
unfolding valid_utf8 valid_from
valid_from_zero zero lo hi [] z = refl
valid_from_zero zero lo hi (x ∷ xs) z = refl
valid_from_zero (suc more) lo hi xs z = absurd (omega arith)

valid_utf8-lead_some :
    (byte : ℕ) (bytes : List ℕ)
    → valid_utf8 (byte ∷ bytes) ≡ true
    → (l : Lead) × (lead_byte byte ≡ some l) × (valid_from l.more l.lo l.hi bytes ≡ true)
unfolding valid_utf8 valid_from
valid_utf8-lead_some byte bytes v = elim (Option-cases (lead_byte byte)) [
  | inl e ↦ absurd (ground arith)
  | inr (l, e) ↦ (l, e, ground arith)
]

pub valid_utf8-nil : valid_utf8 [] ≡ true
unfolding valid_utf8 valid_from
valid_utf8-nil = refl

pub stored-Takes :
    (rest : List ℕ) (s : Decoding) (pending : List ℕ) (pending_length expected : ℕ) (o : Outcome)
    → pending_length ≡ s.decoder.pending_length + 1
    → Takes 0 rest (with_decoder s pending pending_length expected) o
    → Takes 1 rest s o
stored-Takes rest s pending pending_length expected o e a = record {
  done = a.done;
  ready = a.ready;
  room = a.room;
  count = omega (arith, a.count);
}

take_one : (byte : ℕ) (xs : List ℕ) → length xs ≡ 4 → take 1 (set xs 0 byte) ≡ byte ∷ []
take_one byte [] h = absurd (omega arith)
take_one byte (x ∷ xs) h = refl

pub push_lead-Takes :
    (byte : ℕ) (rest : List ℕ) (s : Decoding)
    → IsIdle s
    → valid_utf8 (byte ∷ rest) ≡ true
    → 1 ≤ remaining_capacity s.output
    → Takes 1 rest s (push_lead byte s)
unfolding push_lead
push_lead-Takes byte rest s i v fits =
    let (l, e, r) = valid_utf8-lead_some byte rest v in
    let array = length-set s.decoder.pending 0 byte ∙ i.array in
    let first = take_one byte s.decoder.pending i.array in
    elim (lead_byte-cases byte l e) [
      | inl (ascii, z) ↦ rw ascii (
          stored-Takes rest s (set s.decoder.pending 0 byte) 1 1 _ (omega (arith, i.empty)) (
            flush_complete-Takes rest (with_decoder s (set s.decoder.pending 0 byte) 1 1) array
              i.valid (omega arith) (omega arith) refl
              (rw first (
                valid_utf8-lead byte [] l e
                ∙ valid_from_zero l.more l.lo l.hi [] z
                ∙ valid_utf8-nil))
              fits (sym (valid_from_zero l.more l.lo l.hi rest z) ∙ r)))
      | inr L ↦
          rw (L.other, L.expects)
            (record {
              done = refl;
              ready = inr (
                l.more,
                l.lo,
                l.hi,
                record {
                  array = array;
                  valid = i.valid;
                  begun = omega arith;
                  missing = L.missing;
                  expected = refl;
                  short = omega (arith, L.short);
                  least = L.least;
                  most = L.most;
                  continues = λ xs. rw first (valid_utf8-lead byte xs l e);
                },
                r,
              );
              room = refl;
              count = omega (arith, i.empty);
            })
    ]
