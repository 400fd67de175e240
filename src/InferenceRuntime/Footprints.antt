-- ===== src/InferenceRuntime/Footprints.antt =====
-- The checked arithmetic on memory footprints in crates/engines/inference-runtime/src/runtime.rs.
use llm_app.Prelude.{
  ℕ, ◌+◌, ◌-◌, ◌≤◌, ◌≡◌, inl, inr, leb, if◌then◌else◌, Option, none, some, Result, ok, ok_or,
  ensure, ◌>>=◌, ◌>>◌, Result-cases, arith,
}
use llm_app.Prelude.{u64_max, checked_add}
use llm_app.Contracts.Model.{MemoryFootprint, MemoryBudget, host_bytes, device_bytes}
use llm_app.InferenceRuntime.Errors.{RuntimeError, MemoryKind}

abbrev pub checked_sub : ℕ → ℕ → Option ℕ
checked_sub a b = if leb b a then some (a - b) else none

-- One number of a footprint, added or subtracted.
abbrev pub add_bytes : ℕ → ℕ → Result RuntimeError ℕ
add_bytes a b = ok_or (checked_add u64_max a b) RuntimeError.memory_arithmetic_overflow

abbrev pub sub_bytes : ℕ → ℕ → Result RuntimeError ℕ
sub_bytes a b = ok_or (checked_sub a b) RuntimeError.memory_arithmetic_underflow

unfoldable pub checked_add_footprint :
    MemoryFootprint → MemoryFootprint → Result RuntimeError MemoryFootprint
checked_add_footprint left right = do
  host_weight ← add_bytes left.host_weight_bytes right.host_weight_bytes
  device_weight ← add_bytes left.device_weight_bytes right.device_weight_bytes
  host_working ← add_bytes left.host_working_bytes right.host_working_bytes
  device_working ← add_bytes left.device_working_bytes right.device_working_bytes
  cache ← add_bytes left.cache_bytes_per_token right.cache_bytes_per_token
  ok (record {
    host_weight_bytes = host_weight;
    device_weight_bytes = device_weight;
    host_working_bytes = host_working;
    device_working_bytes = device_working;
    cache_bytes_per_token = cache;
  })

unfoldable pub checked_sub_footprint :
    MemoryFootprint → MemoryFootprint → Result RuntimeError MemoryFootprint
checked_sub_footprint left right = do
  host_weight ← sub_bytes left.host_weight_bytes right.host_weight_bytes
  device_weight ← sub_bytes left.device_weight_bytes right.device_weight_bytes
  host_working ← sub_bytes left.host_working_bytes right.host_working_bytes
  device_working ← sub_bytes left.device_working_bytes right.device_working_bytes
  cache ← sub_bytes left.cache_bytes_per_token right.cache_bytes_per_token
  ok (record {
    host_weight_bytes = host_weight;
    device_weight_bytes = device_weight;
    host_working_bytes = host_working;
    device_working_bytes = device_working;
    cache_bytes_per_token = cache;
  })

pub remaining_budget : MemoryBudget → MemoryFootprint → MemoryBudget
remaining_budget limit used = record {
  host_limit = limit.host_limit - host_bytes used;
  device_limit = limit.device_limit - device_bytes used;
}

pub admit_footprint :
    MemoryFootprint → MemoryFootprint → MemoryBudget → Result RuntimeError MemoryFootprint
admit_footprint current additional budget = do
  next ← checked_add_footprint current additional
  ensure (leb (host_bytes next) budget.host_limit)
      (RuntimeError.insufficient_memory MemoryKind.host (host_bytes next) budget.host_limit)
  ensure (leb (device_bytes next) budget.device_limit)
      (RuntimeError.insufficient_memory MemoryKind.device (device_bytes next) budget.device_limit)
  ok next

-- The five numbers of a footprint, by name.
pub data Part : Type 0 where
  host_weight device_weight host_working device_working cache : Part

abbrev pub part : Part → MemoryFootprint → ℕ
part Part.host_weight f = f.host_weight_bytes
part Part.device_weight f = f.device_weight_bytes
part Part.host_working f = f.host_working_bytes
part Part.device_working f = f.device_working_bytes
part Part.cache f = f.cache_bytes_per_token

pub part-checked_add_footprint :
    (k : Part) (a b c : MemoryFootprint)
    → checked_add_footprint a b ≡ ok c
    → part k c ≡ part k a + part k b
unfolding checked_add_footprint
part-checked_add_footprint Part.host_weight a b c h = ground arith
part-checked_add_footprint Part.device_weight a b c h = ground arith
part-checked_add_footprint Part.host_working a b c h = ground arith
part-checked_add_footprint Part.device_working a b c h = ground arith
part-checked_add_footprint Part.cache a b c h = ground arith

pub part-checked_sub_footprint :
    (k : Part) (a b c : MemoryFootprint)
    → checked_sub_footprint a b ≡ ok c
    → part k c + part k b ≡ part k a
unfolding checked_sub_footprint
part-checked_sub_footprint Part.host_weight a b c h = ground arith
part-checked_sub_footprint Part.device_weight a b c h = ground arith
part-checked_sub_footprint Part.host_working a b c h = ground arith
part-checked_sub_footprint Part.device_working a b c h = ground arith
part-checked_sub_footprint Part.cache a b c h = ground arith

-- A footprint that is no larger in any part can be subtracted.
pub checked_sub_footprint_ok :
    (a b : MemoryFootprint)
    → ((k : Part) → part k b ≤ part k a)
    → (c : MemoryFootprint) × (checked_sub_footprint a b ≡ ok c)
unfolding checked_sub_footprint
checked_sub_footprint_ok a b h = (
  record {
    host_weight_bytes = a.host_weight_bytes - b.host_weight_bytes;
    device_weight_bytes = a.device_weight_bytes - b.device_weight_bytes;
    host_working_bytes = a.host_working_bytes - b.host_working_bytes;
    device_working_bytes = a.device_working_bytes - b.device_working_bytes;
    cache_bytes_per_token = a.cache_bytes_per_token - b.cache_bytes_per_token;
  },
  ground (
    arith,
    h Part.host_weight,
    h Part.device_weight,
    h Part.host_working,
    h Part.device_working,
    h Part.cache,
  ),
)

pub admit_footprint_ok :
    (a b c : MemoryFootprint) (budget : MemoryBudget)
    → admit_footprint a b budget ≡ ok c
    → (checked_add_footprint a b ≡ ok c)
      × (host_bytes c ≤ budget.host_limit)
      × (device_bytes c ≤ budget.device_limit)
unfolding admit_footprint
admit_footprint_ok a b c budget h = elim (Result-cases (checked_add_footprint a b)) [
  | inl (e, f) ↦ absurd (ground arith)
  | inr (next, f) ↦ (ground arith, ground arith, ground arith)
]

-- Footprints whose sum stays a `u64` in every part can be added.
pub checked_add_footprint_ok :
    (a b : MemoryFootprint)
    → ((k : Part) → part k a + part k b ≤ u64_max)
    → (c : MemoryFootprint) × (checked_add_footprint a b ≡ ok c)
unfolding checked_add_footprint
checked_add_footprint_ok a b h = (
  record {
    host_weight_bytes = a.host_weight_bytes + b.host_weight_bytes;
    device_weight_bytes = a.device_weight_bytes + b.device_weight_bytes;
    host_working_bytes = a.host_working_bytes + b.host_working_bytes;
    device_working_bytes = a.device_working_bytes + b.device_working_bytes;
    cache_bytes_per_token = a.cache_bytes_per_token + b.cache_bytes_per_token;
  },
  ground (
    arith,
    h Part.host_weight,
    h Part.device_weight,
    h Part.host_working,
    h Part.device_working,
    h Part.cache,
  ),
)

pub each_part :
    (P : Part → Type 0)
    → P Part.host_weight
    → P Part.device_weight
    → P Part.host_working
    → P Part.device_working
    → P Part.cache
    → (k : Part) → P k
each_part P a b c d e Part.host_weight = a
each_part P a b c d e Part.device_weight = b
each_part P a b c d e Part.host_working = c
each_part P a b c d e Part.device_working = d
each_part P a b c d e Part.cache = e

-- A sum that is computed is a `u64` in every part.
pub part-wide :
    (k : Part) (a b c : MemoryFootprint)
    → checked_add_footprint a b ≡ ok c
    → part k a + part k b ≤ u64_max
unfolding checked_add_footprint
part-wide Part.host_weight a b c h = ground arith
part-wide Part.device_weight a b c h = ground arith
part-wide Part.host_working a b c h = ground arith
part-wide Part.device_working a b c h = ground arith
part-wide Part.cache a b c h = ground arith
