-- ===== src/Tokenization/Buffers/Contents.antt =====
-- What the buffers of crates/features/tokenization/src/sink.rs hold after a write.
use llm_app.Prelude.{
  ℕ, zero, suc, ◌+◌, ◌≤◌, ◌<◌, ◌≡◌, refl, sym, ap, subst, ◌∙◌, List, [], ◌∷◌, ◌++◌, length, set, ok,
  err, arith,
}
use llm_app.Prelude.{take, take-set, drop, length-set, append_assoc, append-nil, length-append}
use llm_app.Contracts.Capacity.{CapacityResource}
use llm_app.Tokenization.Buffers.{
  SliceBuffer, new, exhausted, as_slice, remaining_capacity, push_item, push_loop, push_items,
  push_str,
}

abbrev pub IsValid : SliceBuffer → Type 0
IsValid b = b.length ≤ length b.storage

pub as_slice-take : (b : SliceBuffer) → IsValid b → as_slice b ≡ take b.length b.storage
unfolding as_slice
as_slice-take b v = ground arith

-- A write that appends, in the same slice.
pub record Appends (items : List ℕ) (b b' : SliceBuffer) : Type 0 where
  pub valid : IsValid b'
  pub room : length b'.storage ≡ length b.storage
  pub counted : b'.length ≡ b.length + length items
  pub contents : take b'.length b'.storage ≡ take b.length b.storage ++ items

push_item-Appends :
    (resource : CapacityResource) (item : ℕ) (b : SliceBuffer)
    → b.length < length b.storage
    → (b' : SliceBuffer) × (push_item resource item b ≡ (ok tt, b')) × Appends (item ∷ []) b b'
unfolding push_item
push_item-Appends resource item b room =
    let b' : SliceBuffer = record {
      storage = set b.storage b.length item;
      length = b.length + 1;
    } in
    let at : b.length + 1 ≡ suc b.length = omega arith in
    (
      b',
      ground arith,
      record {
        valid = omega (arith, length-set b.storage b.length item);
        room = length-set b.storage b.length item;
        counted = omega arith;
        contents = rw at (take-set b.length b.storage item room);
      },
    )

push_loop-step :
    (resource : CapacityResource) (item : ℕ) (items : List ℕ) (b m b' : SliceBuffer)
    → push_item resource item b ≡ (ok tt, m)
    → push_loop resource items m ≡ (ok tt, b')
    → push_loop resource (item ∷ items) b ≡ (ok tt, b')
unfolding push_loop
push_loop-step resource item items b m b' e f = ground arith

push_loop-Appends :
    (resource : CapacityResource) (items : List ℕ) (b : SliceBuffer)
    → b.length + length items ≤ length b.storage
    → (b' : SliceBuffer) × (push_loop resource items b ≡ (ok tt, b')) × Appends items b b'
unfolding push_loop
push_loop-Appends resource [] b fits = (
  b,
  refl,
  record {
    valid = omega arith;
    room = refl;
    counted = omega arith;
    contents = sym (append-nil (take b.length b.storage));
  },
)
push_loop-Appends resource (item ∷ items) b fits =
    let (m, e, v) = push_item-Appends resource item b (omega arith) in
    let (b', f, w) = push_loop-Appends resource items m (omega (arith, v.room, v.counted)) in
    (
      b',
      push_loop-step resource item items b m b' e f,
      record {
        valid = w.valid;
        room = w.room ∙ v.room;
        counted = omega (arith, w.counted, v.counted);
        contents =
            w.contents ∙ rw v.contents (append_assoc (take b.length b.storage) (item ∷ []) items);
      },
    )

-- Pushing several tokens or bytes is all or nothing: when they fit into the rest of the slice, all are
-- appended to what the buffer showed; when they do not, the error says how many were asked for
-- and how many would fit, and the buffer is as it was.
pub push_items-append :
    (resource : CapacityResource) (items : List ℕ) (b : SliceBuffer)
    → IsValid b
    → (length items ≤ remaining_capacity b
        → (b' : SliceBuffer) × (push_items resource items b ≡ (ok tt, b'))
          × IsValid b'
          × (as_slice b' ≡ as_slice b ++ items))
      × (remaining_capacity b < length items
          → push_items resource items b
            ≡ (err (exhausted resource (length items) (remaining_capacity b)), b))
unfolding push_items
push_items-append resource items b v = (
  λ fits.
      let (b', e, w) = push_loop-Appends resource items b (omega arith) in
      (
        b',
        ground (arith, e),
        w.valid,
        as_slice-take b' w.valid
            ∙ w.contents
            ∙ ap (λ (xs : List ℕ). xs ++ items) (sym (as_slice-take b v)),
      ),
  λ over. ground arith,
)

take-append-length : (xs ys : List ℕ) → take (length xs) (xs ++ ys) ≡ xs
take-append-length [] ys = refl
take-append-length (x ∷ xs) ys = ap (◌∷◌ x) (take-append-length xs ys)

pub length-take-le : (n : ℕ) (xs : List ℕ) → n ≤ length xs → length (take n xs) ≡ n
length-take-le zero xs h = refl
length-take-le (suc n) [] h = elim h [ ]
length-take-le (suc n) (x ∷ xs) h = ap suc (length-take-le n xs (omega arith))

length-drop-add : (n : ℕ) (xs : List ℕ) → n ≤ length xs → length (drop n xs) + n ≡ length xs
length-drop-add zero xs h = omega arith
length-drop-add (suc n) [] h = elim h [ ]
length-drop-add (suc n) (x ∷ xs) h = omega (arith, length-drop-add n xs (omega arith))

-- A text that fits is appended whole.
pub push_str-Appends :
    (bytes : List ℕ) (b : SliceBuffer)
    → IsValid b
    → length bytes ≤ remaining_capacity b
    → (b' : SliceBuffer) × (push_str bytes b ≡ (ok tt, b')) × Appends bytes b b'
unfolding push_str
push_str-Appends bytes b v fits =
    let kept = take b.length b.storage in
    let rest = drop (b.length + length bytes) b.storage in
    let b' : SliceBuffer = record {
      storage = kept ++ bytes ++ rest;
      length = b.length + length bytes;
    } in
    let sized : length kept ≡ b.length = length-take-le b.length b.storage v in
    let counted : length (kept ++ bytes) ≡ b.length + length bytes =
      omega (arith, length-append kept bytes) in
    let room : length (kept ++ bytes ++ rest) ≡ length b.storage = omega (
      arith,
      length-append (kept ++ bytes) rest,
      length-drop-add (b.length + length bytes) b.storage (omega arith),
    ) in
    (
      b',
      ground arith,
      record {
        valid = omega arith;
        room = room;
        counted = refl;
        contents =
            subst (λ (n : ℕ). take n (kept ++ bytes ++ rest) ≡ kept ++ bytes) counted
              (take-append-length (kept ++ bytes) rest);
      },
    )

-- A text that does not fit is not written.
pub push_str_full :
    (bytes : List ℕ) (b : SliceBuffer)
    → remaining_capacity b < length bytes
    → push_str bytes b
      ≡ (err (exhausted CapacityResource.decode_bytes (length bytes) (remaining_capacity b)), b)
unfolding push_str
push_str_full bytes b over = ground arith

pub new_lem : (storage : List ℕ) → new storage ≡ record { storage = storage; length = 0 }
unfolding new
new_lem storage = refl
