-- ===== src/Tokenization/Utf8.antt =====
-- crates/features/tokenization/src/utf8.rs: UTF-8 validation across token boundaries. The sink is the
-- crate's `TextBuffer`. `valid_utf8` stands for `core::str::from_utf8`: the well-formed byte
-- sequences of the Unicode standard, table 3-7.
pub mod Text
pub mod Bytes
pub mod Chunks
pub mod Acceptance
pub mod Completeness
pub mod Decoded
mod Tests
use llm_app.Prelude.{
  ℕ, zero, suc, ◌+◌, Bool, true, false, not, ◌&&◌, ◌||◌, ◌==◌, ltb, leb, if◌then◌else◌, Option,
  none, some, List, [], ◌∷◌, length, set, Result, ok, err,
}
use llm_app.Prelude.{take, u8_max, saturating_add}
use llm_app.Contracts.Capacity.{CapacityResource}
use llm_app.Tokenization.Buffers.{
  SliceBuffer, TokenizationError, exhausted, remaining_capacity, push_str,
}

abbrev pub within : ℕ → ℕ → ℕ → Bool
within lo hi b = leb lo b && leb b hi

-- What a lead byte asks for: the number of bytes after it, and the range of the first of them.
pub record Lead : Type 0 where
  pub more : ℕ
  pub lo : ℕ
  pub hi : ℕ

abbrev pub following : ℕ → ℕ → ℕ → Option Lead
following more lo hi = some (record { more = more; lo = lo; hi = hi })

pub lead_byte : ℕ → Option Lead
lead_byte b =
    if leb b 0x7F
    then following 0 0x80 0xBF
    else if within 0xC2 0xDF b
    then following 1 0x80 0xBF
    else if within 0xE0 0xE0 b
    then following 2 0xA0 0xBF
    else if within 0xED 0xED b
    then following 2 0x80 0x9F
    else if within 0xE1 0xEF b
    then following 2 0x80 0xBF
    else if within 0xF0 0xF0 b
    then following 3 0x90 0xBF
    else if within 0xF1 0xF3 b
    then following 3 0x80 0xBF
    else if within 0xF4 0xF4 b
    then following 3 0x80 0x8F
    else none

-- The rest of a text of which a character still misses `more` bytes.
pub valid_from : (more lo hi : ℕ) → List ℕ → Bool
valid_from zero lo hi [] = true
valid_from zero lo hi (b ∷ bs) = elim (lead_byte b) [
  | none ↦ false
  | some l ↦ valid_from l.more l.lo l.hi bs
]
valid_from (suc more) lo hi [] = false
valid_from (suc more) lo hi (b ∷ bs) =
    let rest = valid_from more 0x80 0xBF bs in if within lo hi b then rest else false

pub valid_utf8 : List ℕ → Bool
unfolding valid_from
valid_utf8 = valid_from 0 0x80 0xBF

-- `pending` is an array of four bytes.
pub record IncrementalUtf8Decoder : Type 0 where
  pub pending : List ℕ
  pub pending_length : ℕ
  pub expected_length : ℕ

abbrev pub new : IncrementalUtf8Decoder
new = record { pending = 0 ∷ 0 ∷ 0 ∷ 0 ∷ []; pending_length = 0; expected_length = 0 }

-- `reset` leaves the decoder as `new` makes it.
abbrev pub reset : IncrementalUtf8Decoder → IncrementalUtf8Decoder
reset d = new

-- The decoder and the sink, both behind `&mut`.
pub record Decoding : Type 0 where
  pub decoder : IncrementalUtf8Decoder
  pub output : SliceBuffer

abbrev pub Outcome : Type 0
Outcome = Result TokenizationError (Unit {0}) × Decoding

abbrev pub last_or : ℕ → List ℕ → ℕ
last_or default [] = default
last_or default (b ∷ []) = b
last_or default (b ∷ c ∷ bs) = last_or default (c ∷ bs)

abbrev invalid : ℕ → Decoding → Outcome
invalid byte s = (err (TokenizationError.invalid_utf8 byte), record s { decoder = reset s.decoder })

-- `push_str` and the reset after it; when the sink refuses, the fragment stays pending.
pub emit : List ℕ → Decoding → Outcome
emit text s =
    let (outcome, output) = push_str text s.output in
    elim outcome [
      | err e ↦ (err e, record s { output = output })
      | ok done ↦ (ok tt, record { decoder = reset s.decoder; output = output })
    ]

pub flush_fragment : List ℕ → Decoding → Outcome
unfolding emit
flush_fragment fragment s =
    if valid_utf8 fragment then emit fragment s else invalid (last_or 0 fragment) s

pub flush_complete : Decoding → Outcome
unfolding flush_fragment
flush_complete s =
    if (s.decoder.pending_length == 0)
      || not (s.decoder.pending_length == s.decoder.expected_length)
    then (ok tt, s)
    else if leb s.decoder.expected_length (length s.decoder.pending)
    then flush_fragment (take s.decoder.expected_length s.decoder.pending) s
    else invalid 0 s

abbrev pub expected_of : ℕ → Option ℕ
expected_of byte =
    if within 0xC2 0xDF byte
    then some 2
    else if within 0xE0 0xEF byte
    then some 3
    else if within 0xF0 0xF4 byte
    then some 4
    else none

abbrev pub with_decoder : Decoding → List ℕ → ℕ → ℕ → Decoding
with_decoder s pending pending_length expected_length = record s {
  decoder = record {
    pending = pending;
    pending_length = pending_length;
    expected_length = expected_length;
  };
}

-- A byte that begins a character. `is_ascii` is a value below 0x80.
pub push_lead : ℕ → Decoding → Outcome
unfolding flush_complete
push_lead byte s =
    if ltb byte 0x80
    then flush_complete (with_decoder s (set s.decoder.pending 0 byte) 1 1)
    else elim (expected_of byte) [
      | none ↦ (err (TokenizationError.invalid_utf8 byte), s)
      | some expected ↦ (ok tt, with_decoder s (set s.decoder.pending 0 byte) 1 expected)
    ]

-- A byte that continues one: `byte & 0b1100_0000 == 0b1000_0000` is a value from 0x80 to 0xBF.
pub push_continuation : ℕ → Decoding → Outcome
unfolding flush_complete
push_continuation byte s =
    let d = s.decoder in
    let count = saturating_add u8_max d.pending_length 1 in
    let s' = with_decoder s (set d.pending d.pending_length byte) count d.expected_length in
    if not (within 0x80 0xBF byte)
    then invalid byte s
    else if not (ltb d.pending_length (length d.pending))
    then invalid byte s
    else if not (count == d.expected_length)
    then (ok tt, s')
    else flush_complete s'

pub push_byte : ℕ → Decoding → Outcome
unfolding push_lead push_continuation
push_byte byte s =
    if s.decoder.pending_length == 0 then push_lead byte s else push_continuation byte s

pub push_loop : List ℕ → Decoding → Outcome
push_loop [] s = (ok tt, s)
push_loop (byte ∷ bytes) s =
    let (outcome, s') = push_byte byte s in
    elim outcome [ err e ↦ (err e, s') | ok done ↦ push_loop bytes s' ]

pub push_flushed : List ℕ → Outcome → Outcome
push_flushed bytes (err e, s) = (err e, s)
push_flushed bytes (ok done, s) = push_loop bytes s

pub push_bytes : List ℕ → Decoding → Outcome
unfolding push_flushed push_loop
push_bytes bytes s =
    let required = s.decoder.pending_length + length bytes in
    if ltb (remaining_capacity s.output) required
    then (err (exhausted CapacityResource.decode_bytes required (remaining_capacity s.output)), s)
    else push_flushed bytes (flush_complete s)

pub finish : IncrementalUtf8Decoder → Result TokenizationError (Unit {0})
finish d =
    if d.pending_length == 0
    then ok tt
    else err (TokenizationError.incomplete_utf8 d.pending_length)
