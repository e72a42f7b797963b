-- ===== src/Slab/Tests.antt =====
-- Tests and witnesses of the slab allocator.
use xdk.Prelude.{
  ℕ, ◌*◌, inr, replicate, length, ◌+◌, ◌≡◌, refl, arith, true, false, some, inl, ltb, if◌then◌else◌,
  ◌∷◌, update,
}
use xdk.Slab
use xdk.Slab.{
  Span, Freed, span_size, new, init_span, first_zero, span_next_free, is_valid, span_free, asserted,
  out_of_bounds, freed,
}
use xdk.Slab.Objects.{Allocator, alloc_object, first_laid_out, max_span_count}
use xdk.Slab.Geometry.{LaidOut, init_span_lem}
use xdk.Slab.Blocks.{IsValid, LaidOut-IsValid, block_at, taken}
use xdk.Slab.Handout.{Hands, span_next_free_lem, span_free_lem}
use xdk.Slab.RoundTrip.{Reusable, alloc_object-free_object}
use xdk.Slab.Lending.{Separate, replicate-AllUsable}

-- Three blocks of 16 bytes from address 1032 on; the first two are in use.
abbrev two_taken : Span
two_taken = record {
  initialized = true;
  elem_size = 16;
  num_blocks = 3;
  bitmap_size = 16;
  bitmap = λ k. ltb k 2;
  first_block = 1032;
  last_block = 1080;
}

two_taken-IsValid : IsValid two_taken
two_taken-IsValid = record {
  ready = refl;
  elem_pos = omega arith;
  elem_words = omega arith;
  aligned = omega arith;
  words = omega arith;
  bits = omega arith;
  end = omega arith;
}

third : span_next_free 0 two_taken ≡ some (some 1064, taken two_taken 2)
unfolding span_next_free Slab.check_words Slab.check_bitmap_word first_zero
third = refl

-- The end of the last block passes the test of `is_valid`.
end_is_valid : is_valid 1080 two_taken ≡ some true
unfolding is_valid
end_is_valid = refl

init_span_lem_example : (s : Span) × (init_span 1000 (new 65536) ≡ some s) × LaidOut 1000 65536 s
init_span_lem_example = init_span_lem 1000 65536 (omega arith) (omega arith)

-- A span is in use once it has been laid out.
laid_out_is_usable : (s : Span) × (init_span 1000 (new 65536) ≡ some s) × IsValid s
laid_out_is_usable =
    let (s, run, laid) = init_span_lem 1000 65536 (omega arith) (omega arith) in
    (s, run, LaidOut-IsValid 1000 65536 s laid (omega arith) (omega arith))

span_next_free_lem_example :
    Hands two_taken (first_zero 3 0 two_taken.bitmap) (span_next_free 0 two_taken)
span_next_free_lem_example = span_next_free_lem 0 two_taken two_taken-IsValid

span_free_lem_example :
    (span_free (block_at two_taken 1 + 5) two_taken ≡ (
      if two_taken.bitmap 1
      then freed (record two_taken { bitmap = update two_taken.bitmap 1 false })
      else asserted))
    × (span_free 1080 two_taken ≡ asserted)
    × (span_free (1080 + 6) two_taken ≡ out_of_bounds)
span_free_lem_example = span_free_lem two_taken 1 5 two_taken-IsValid (omega arith) (omega arith)

-- Of blocks of 52424 bytes there are four, though a fifth would end at the end of the span, at
-- 1000 + 262144.
one_less :
    (init_span 1000 (new 52424)
      ≡ some (record {
        initialized = true;
        elem_size = 52424;
        num_blocks = 4;
        bitmap_size = 16;
        bitmap = λ k. false;
        first_block = 1024;
        last_block = 210720;
      }))
    × (210720 + 52424 ≡ 1000 + span_size)
unfolding init_span new Slab.best_fit Slab.laid_out Slab.first_aligned
one_less = (refl, refl)

-- An allocator of blocks of 64 KB as the constructor leaves it: only the first of its spans is laid out.
abbrev memory : ℕ → ℕ
memory i = 1000 + i * 262152

abbrev first_span : Span
first_span = record {
  initialized = true;
  elem_size = 65536;
  num_blocks = 3;
  bitmap_size = 16;
  bitmap = λ k. false;
  first_block = 1024;
  last_block = 197632;
}

first_span-IsValid : IsValid first_span
first_span-IsValid = record {
  ready = refl;
  elem_pos = omega arith;
  elem_words = omega arith;
  aligned = omega arith;
  words = omega arith;
  bits = omega arith;
  end = omega arith;
}

abbrev objects : Allocator
objects = record { block_size = 65536; spans = first_span ∷ replicate 1023 (new 65536) }

first_laid : init_span 1000 (new 65536) ≡ some first_span
unfolding init_span new Slab.best_fit Slab.laid_out Slab.first_aligned
first_laid = refl

constructed : first_laid_out 1000 65536 (replicate max_span_count (new 65536)) ≡ some objects
unfolding first_laid_out
constructed = rw (first_laid, first_laid_out) refl

memory-Separate : Separate memory (length objects.spans)
memory-Separate i j lt top = inl (omega arith)

alloc_object-free_object_example : Reusable memory objects (alloc_object memory 65536 objects)
alloc_object-free_object_example =
    alloc_object-free_object memory objects (omega arith) (omega arith) (omega arith)
      memory-Separate
      (inr (first_span-IsValid, omega arith, omega arith), replicate-AllUsable memory 65536 1 1023)
