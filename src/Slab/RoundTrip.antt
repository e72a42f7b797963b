-- ===== src/Slab/RoundTrip.antt =====
-- `Base_object_allocator`: what it hands out can be given back, wherever among the spans it stands.
use xdk.Prelude.{ℕ, ◌+◌, ◌%◌, ◌<◌, ◌≡◌, refl, arith, true, Option, none, some, ◌==◌, List, length}
use xdk.Slab.{Span, span_size}
use xdk.Slab.Objects.{Allocator, alloc_from, alloc_object, free_object}
use xdk.Slab.Lending.{AllUsable, Separate, AllFull, Settles, Returnable, alloc_from-Returnable}

-- What a call of `alloc` comes to.
abbrev pub Reusable : (ℕ → ℕ) → Allocator → Option (ℕ × Allocator) → Type 0
Reusable unaligned a none = AllFull a.spans
Reusable unaligned a (some (p, a')) =
    AllUsable unaligned a.block_size 0 a'.spans
    × (a'.block_size ≡ a.block_size)
    × (settled : List Span) × Settles unaligned a.block_size 0 a.spans settled
    × (free_object p a' ≡ some (record a { spans = settled }))

-- An allocation of blocks of the allocator's size, of 8 bytes or a multiple of it to 262112, in an
-- allocator whose spans are each in use or still to be laid out, as the constructor leaves all but the
-- first, in memory that does not overlap: it gives a block that `free` takes back, which restores the
-- allocator, except that a span that was not in use before may have been laid out; and the allocator
-- is fit for the next allocation. Or it panics, which happens only if every span is in use and every
-- block of it.
pub alloc_object-free_object :
    (unaligned : ℕ → ℕ) (a : Allocator)
    → 0 < a.block_size
    → a.block_size % 8 ≡ 0
    → a.block_size + 24 < span_size
    → Separate unaligned (length a.spans)
    → AllUsable unaligned a.block_size 0 a.spans
    → Reusable unaligned a (alloc_object unaligned a.block_size a)
unfolding alloc_object free_object
alloc_object-free_object unaligned a pos whole fits_one separate us =
    let same : (a.block_size == a.block_size) ≡ true = ground arith in
    rw (same, alloc_object)
      (finish (alloc_from unaligned 0 a.spans) (
        alloc_from-Returnable unaligned a.block_size (length a.spans) pos whole fits_one separate 0
          a.spans (omega arith) us))
  where
    finish :
        (o : Option (ℕ × List Span))
        → Returnable unaligned a.block_size (length a.spans) pos whole fits_one separate 0 a.spans o
        → Reusable unaligned a
            (elim o [ none ↦ none | some (p, ss) ↦ some (p, record a { spans = ss }) ])
    finish none r = r
    finish (some (p, ss)) r = (r.usable, refl, r.settled, r.settles, rw (r.back, free_object) refl)
