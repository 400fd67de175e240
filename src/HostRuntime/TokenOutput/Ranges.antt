-- ===== src/HostRuntime/TokenOutput/Ranges.antt =====
-- The ranges of crates/adapters/host-runtime/src/token_output.rs: which tokens a record stands for.
use llm_app.Prelude.{
  ℕ, zero, suc, ◌+◌, ◌-◌, ◌≤◌, ◌≡◌, refl, sym, ap, ◌∙◌, inl, inr, true, leb, Option, none, some,
  List, [], ◌∷◌, ◌++◌, length, Option-cases, arith, length-append,
}
use llm_app.Prelude.{take, drop, u64_max, map}
use llm_app.HostRuntime.TokenOutput.{
  TokenRange, TokenOutputRecordKind, TokenOutputRecord, tokens_in,
}

take-drop-append :
    (k n : ℕ) (xs ys : List ℕ) → k + n ≤ length xs → take n (drop k (xs ++ ys)) ≡ take n (drop k xs)
take-drop-append zero zero xs ys h = refl
take-drop-append zero (suc n) [] ys h = absurd (omega arith)
take-drop-append zero (suc n) (x ∷ xs) ys h =
    ap (◌∷◌ x) (take-drop-append zero n xs ys (omega arith))
take-drop-append (suc k) n [] ys h = absurd (omega arith)
take-drop-append (suc k) n (x ∷ xs) ys h = take-drop-append k n xs ys (omega arith)

pub take-all : (xs : List ℕ) → take (length xs) xs ≡ xs
take-all [] = refl
take-all (x ∷ xs) = ap (◌∷◌ x) (take-all xs)

drop-append : (xs ys : List ℕ) → drop (length xs) (xs ++ ys) ≡ ys
drop-append [] ys = refl
drop-append (x ∷ xs) ys = drop-append xs ys

-- More tokens behind those of a batch leave its ranges as they are.
tokens_in-append :
    (start : ℕ) (xs ys : List ℕ) (range : TokenRange) (zs : List ℕ)
    → tokens_in start xs range ≡ some zs
    → tokens_in start (xs ++ ys) range ≡ some zs
unfolding tokens_in
tokens_in-append start xs ys range zs h =
    let inside : (range.start - start) + range.length ≤ length xs = ground arith in
    let e = take-drop-append (range.start - start) range.length xs ys inside in
    ground (arith, length-append xs ys)

-- The range of what was appended last.
pub tokens_in_last :
    (start : ℕ) (xs ys : List ℕ)
    → start + (length xs + length ys) ≤ u64_max
    → tokens_in start (xs ++ ys) (record { start = start + length xs; length = length ys })
      ≡ some ys
unfolding tokens_in
tokens_in_last start xs ys fits =
    let e : start + length xs - start ≡ length xs = omega arith in
    let inside : leb start (start + length xs) ≡ true = ground arith in
    let small : leb (length xs + length ys) u64_max ≡ true = ground arith in
    let whole : leb (length xs + length ys) (length (xs ++ ys)) ≡ true =
      ground (arith, length-append xs ys) in
    rw (e, inside, small, whole, drop-append xs ys, take-all ys) refl

-- What a record of a batch stands for.
pub data Entry {ℓ} (S : Type ℓ) : Type ℓ where
  sent : ℕ → List ℕ → Entry S
  told : ℕ → S → Entry S

module _ {ℓ} {S : Type ℓ} where
  abbrev pub sent_by : ℕ → Option (List ℕ) → Option (Entry S)
  sent_by request_id none = none
  sent_by request_id (some items) = some (Entry.sent request_id items)

  abbrev pub resolve_kind : ℕ → List ℕ → ℕ → TokenOutputRecordKind S → Option (Entry S)
  resolve_kind start items request_id (TokenOutputRecordKind.tokens range) =
      sent_by request_id (tokens_in start items range)
  resolve_kind start items request_id (TokenOutputRecordKind.state payload) =
      some (Entry.told request_id payload)

  -- The records of a batch as what they stand for.
  abbrev pub resolve_all : ℕ → List ℕ → List (TokenOutputRecord S) → List (Option (Entry S))
  resolve_all start items [] = []
  resolve_all start items (r ∷ rs) =
      resolve_kind start items r.request_id r.kind ∷ resolve_all start items rs

  resolve_kind-append :
      (start : ℕ) (xs ys : List ℕ) (request_id : ℕ) (kind : TokenOutputRecordKind S)
      (entry : Entry S)
      → resolve_kind start xs request_id kind ≡ some entry
      → resolve_kind start (xs ++ ys) request_id kind ≡ some entry
  resolve_kind-append start xs ys request_id (TokenOutputRecordKind.state payload) entry h = h
  resolve_kind-append start xs ys request_id (TokenOutputRecordKind.tokens range) entry h =
      elim (Option-cases (tokens_in start xs range)) [
        | inl e ↦ absurd (ground arith)
        | inr (zs, e) ↦
            rw (tokens_in-append start xs ys range zs e) (sym (ap (sent_by request_id) e) ∙ h)
      ]

  pub resolve_all-append_tokens :
      (start : ℕ) (xs ys : List ℕ) (rs : List (TokenOutputRecord S)) (es : List (Entry S))
      → resolve_all start xs rs ≡ map some es
      → resolve_all start (xs ++ ys) rs ≡ map some es
  resolve_all-append_tokens start xs ys [] es h = h
  resolve_all-append_tokens start xs ys (r ∷ rs) [] h = cc
  resolve_all-append_tokens start xs ys (r ∷ rs) (e ∷ es) h =
      let first : resolve_kind start xs r.request_id r.kind ≡ some e = cc in
      let rest : resolve_all start xs rs ≡ map some es = cc in
      rw (resolve_kind-append start xs ys r.request_id r.kind e first)
        (ap (◌∷◌ (some e)) (resolve_all-append_tokens start xs ys rs es rest))

  pub resolve_all-append :
      (start : ℕ) (xs : List ℕ) (rs rs' : List (TokenOutputRecord S))
      → resolve_all start xs (rs ++ rs') ≡ resolve_all start xs rs ++ resolve_all start xs rs'
  resolve_all-append start xs [] rs' = refl
  resolve_all-append start xs (r ∷ rs) rs' =
      ap (◌∷◌ (resolve_kind start xs r.request_id r.kind)) (resolve_all-append start xs rs rs')
