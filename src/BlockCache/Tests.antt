-- ===== src/BlockCache/Tests.antt =====
-- The theorems on a disk of 8 MB.
use xdk.Prelude.{
  ℕ, ◌+◌, ◌%◌, ◌≡◌, refl, arith, Option, none, some, if◌then◌else◌, leb, true, List, [], ◌∷◌,
}
use xdk.BlockCache.{Byte, Cache, SiloEntry, new, read, find_best_silo, find_best, evicted}
use xdk.BlockCache.Slots.{Fresh, IsValid, new-IsValid}
use xdk.BlockCache.Search.{Chosen, find_best_silo_lem}
use xdk.BlockCache.Allocate.{Reads}
use xdk.BlockCache.Read.{Kept, read_lem}

abbrev disk : ℕ → Byte
disk k = k % 251

abbrev device : ℕ → ℕ → Option (ℕ → Byte)
device offset n = if leb (offset + n) 8388608 then some (λ k. disk (offset + k)) else none

abbrev alloc_pages : ℕ → Option ℕ
alloc_pages i = some i

fresh : Fresh alloc_pages disk
fresh = (λ i. (i, refl), λ i j p e f. let g : i ≡ j = cc in g)

reads : Reads device disk 8388608
reads offset n le =
    let f : leb (offset + n) 8388608 ≡ true = ground arith in
    ((λ k. disk (offset + k)), rw f refl, λ k lt. refl)

abbrev empty : Cache
empty = new (λ p k. 0)

read_lem_example :
    (c : Cache) × (read alloc_pages device 1000 3 7 empty ≡ some (some (247 ∷ 248 ∷ 249 ∷ []), c))
    × IsValid alloc_pages disk c
    × Kept alloc_pages disk 1000 3 c
read_lem_example =
    read_lem alloc_pages device disk 8388608 fresh reads (omega arith) 1000 3 7 empty
      (new-IsValid alloc_pages disk (λ p k. 0)) (omega arith) (omega arith) (omega arith)

-- Three entries in use, the second loaded last
abbrev entries : List SiloEntry
entries =
    record { silo = none; age = 5 }
    ∷ record { silo = none; age = 9 }
    ∷ record { silo = none; age = 7 }
    ∷ []

second_goes : find_best_silo entries ≡ evicted 1
unfolding find_best_silo find_best
second_goes = refl

find_best_silo_lem_example : Chosen entries (evicted 1)
unfolding find_best_silo find_best
find_best_silo_lem_example = find_best_silo_lem entries (omega arith)
