-- ===== src/Tokenization/Buffers.antt =====
-- crates/features/tokenization/src/sink.rs and error.rs: output buffers over caller-owned slices.
-- `TokenBuffer` and `ByteBuffer` differ in their items and in the resource that they report, which is
-- the parameter of the operations here. A method on `&mut self` returns its result and the buffer.
pub mod Contents
mod Tests
use llm_app.Prelude.{
  ℕ, zero, suc, ◌+◌, ◌-◌, ◌≤◌, ◌<◌, ◌≡◌, refl, sym, ap, subst, ◌∙◌, ◌≢◌, ◌↔◌, ◌⊎◌, inl, inr, Bool,
  true, false, not, ◌&&◌, ◌||◌, ◌==◌, ltb, leb, if◌then◌else◌, Option, none, some, List, [], ◌∷◌,
  ◌++◌, length, get_elem?, set, All, Result, ok, err, ok_or, ensure, ◌>>=◌, ◌>>◌, Bool-cases,
  Option-cases, Result-cases, ==_iff, ltb→lt, lt→ltb, leb→le, arith,
}
use llm_app.Prelude.{take, drop}
use llm_app.Contracts.Capacity.{CapacityExhausted, CapacityResource}

pub data TokenizationError : Type 0 where
  capacity_exhausted : CapacityExhausted → TokenizationError
  unknown_token invalid_utf8 incomplete_utf8 implementation : ℕ → TokenizationError

pub record SliceBuffer : Type 0 where
  pub storage : List ℕ
  pub length : ℕ

abbrev pub Written : Type 0
Written = Result TokenizationError (Unit {0}) × SliceBuffer

abbrev pub exhausted : CapacityResource → ℕ → ℕ → TokenizationError
exhausted resource required available =
    TokenizationError.capacity_exhausted
      (record { resource = resource; required = required; available = available })

unfoldable pub new : List ℕ → SliceBuffer
new storage = record { storage = storage; length = 0 }

-- `as_slice`: nothing, should the length be out of range.
unfoldable pub as_slice : SliceBuffer → List ℕ
as_slice b = if leb b.length (length b.storage) then take b.length b.storage else []

pub clear : SliceBuffer → SliceBuffer
clear b = record b { length = 0 }

abbrev pub remaining_capacity : SliceBuffer → ℕ
remaining_capacity b = length b.storage - b.length

pub push_item : CapacityResource → ℕ → SliceBuffer → Written
push_item resource item b =
    if ltb b.length (length b.storage)
    then (ok tt, record { storage = set b.storage b.length item; length = b.length + 1 })
    else (err (exhausted resource 1 (remaining_capacity b)), b)

-- The loop of `push_tokens` and `push_bytes`.
pub push_loop : CapacityResource → List ℕ → SliceBuffer → Written
push_loop resource [] b = (ok tt, b)
push_loop resource (item ∷ items) b =
    let (outcome, b') = push_item resource item b in
    elim outcome [ err e ↦ (err e, b') | ok done ↦ push_loop resource items b' ]

pub push_items : CapacityResource → List ℕ → SliceBuffer → Written
push_items resource items b =
    if ltb (remaining_capacity b) (length items)
    then (err (exhausted resource (length items) (remaining_capacity b)), b)
    else push_loop resource items b

pub push_token : ℕ → SliceBuffer → Written
unfolding push_item
push_token = push_item CapacityResource.tokens

pub push_tokens : List ℕ → SliceBuffer → Written
unfolding push_items
push_tokens = push_items CapacityResource.tokens

pub push_byte : ℕ → SliceBuffer → Written
unfolding push_item
push_byte = push_item CapacityResource.decode_bytes

pub push_bytes : List ℕ → SliceBuffer → Written
unfolding push_items
push_bytes = push_items CapacityResource.decode_bytes

-- `copy_from_slice` at an offset.
abbrev pub copy_at : ℕ → List ℕ → List ℕ → List ℕ
copy_at start bytes storage = take start storage ++ bytes ++ drop (start + length bytes) storage

-- `TextBuffer::push_str`, on the bytes of the text. The checked range is `length..end`.
unfoldable pub push_str : List ℕ → SliceBuffer → Written
push_str bytes b =
    let available = remaining_capacity b in
    let end = b.length + length bytes in
    if ltb available (length bytes)
    then (err (exhausted CapacityResource.decode_bytes (length bytes) available), b)
    else if leb end (length b.storage)
    then (ok tt, record { storage = copy_at b.length bytes b.storage; length = end })
    else (err (exhausted CapacityResource.decode_bytes (length bytes) available), b)
