-- ===== src/Slab/Objects.antt =====
-- lib/libexo/private/__base_slab_allocator.h: `Base_object_allocator`, a list of spans that are laid
-- out one after the other.
use xdk.Prelude.{ℕ, ◌+◌, ◌==◌, not, Option, none, some, List, [], ◌∷◌, if◌then◌else◌, replicate}
use xdk.Slab.{
  Span, new, init_span, span_next_free, panics, asserted, out_of_bounds, freed, span_free,
}

-- `Max_span_count`
abbrev pub max_span_count : ℕ
max_span_count = 1024

-- `Base_object_allocator`: the size of its blocks, and the spans. `_allocated_bytes` is a statistic.
pub record Allocator : Type 0 where
  pub block_size : ℕ
  pub spans : List Span

-- The constructor: the first span is laid out at once.
unfoldable pub first_laid_out : ℕ → ℕ → List Span → Option Allocator
first_laid_out unaligned block_size [] = none
first_laid_out unaligned block_size (s ∷ ss) = elim (init_span unaligned s) [
  | none ↦ none
  | some s' ↦ some (record { block_size = block_size; spans = s' ∷ ss })
]

pub make : ℕ → ℕ → Option Allocator
make unaligned block_size =
    first_laid_out unaligned block_size (replicate max_span_count (new block_size))

-- `_alloc`: the block, or `none` for a failed assertion or the panic that there are no more spans.
-- `unaligned` is what `malloc` returns for each span.
unfoldable pub alloc_from : (ℕ → ℕ) → ℕ → List Span → Option (ℕ × List Span)
alloc_from unaligned i [] = none
alloc_from unaligned i (s ∷ ss) = elim (span_next_free (unaligned i) s) [
  | none ↦ none
  | some (some p, s') ↦ some (p, s' ∷ ss)
  | some (none, s') ↦ elim (alloc_from unaligned (i + 1) ss) [
    | none ↦ none
    | some (p, ss') ↦ some (p, s' ∷ ss')
  ]
]

-- `alloc`, with its assertion on the size
unfoldable pub alloc_object : (ℕ → ℕ) → ℕ → Allocator → Option (ℕ × Allocator)
alloc_object unaligned size a =
    if not (size == a.block_size) then none else elim (alloc_from unaligned 0 a.spans) [
      | none ↦ none
      | some (p, ss) ↦ some (p, record a { spans = ss })
    ]

-- `_free`: S_OK with the spans, E_FAIL, or what ends the program
pub data FreedObject : Type 0 where
  crashed : FreedObject
  failed : FreedObject
  released : List Span → FreedObject

-- The spans before one that has been passed
abbrev pub behind : Span → FreedObject → FreedObject
behind s crashed = crashed
behind s failed = failed
behind s (released ss) = released (s ∷ ss)

unfoldable pub free_in : ℕ → List Span → FreedObject
free_in ptr [] = failed
free_in ptr (s ∷ ss) = elim (span_free ptr s) [
  | panics ↦ crashed
  | asserted ↦ crashed
  | out_of_bounds ↦ behind s (free_in ptr ss)
  | freed s' ↦ released (s' ∷ ss)
]

-- `free`; a failure of `_free` is a panic.
unfoldable pub free_object : ℕ → Allocator → Option Allocator
free_object ptr a = elim (free_in ptr a.spans) [
  | released ss ↦ some (record a { spans = ss })
  | _ ↦ none
]
