-- ===== src/Parasite/Tests.antt =====
-- Runs of the handlers, and the theorems applied to them.
use xdk.Prelude.{
  ℕ, zero, suc, Option, subst, Bool-cases, inl, inr, ltb, ◌+◌, ◌-◌, ◌*◌, ◌^◌, ◌<◌, ◌≤◌, ◌≡◌, refl,
  arith, Bool, true, false, none, some, List, [], ◌∷◌, if◌then◌else◌,
}
use xdk.Parasite.{
  Errno, done, error, Area, Grant, Device, Kernel, Caller, Pci, IrqMode, is_device_granted,
  check_authority,
}
use xdk.Parasite.Dma
use xdk.Parasite.Dma.{
  Linux, Zone, zone_of, Vma, Mapping, page_size, AllocRequest, FreeRequest, order_of,
  dma_alloc_store, dma_free_store, grant_access_store, fops_mmap, is_owned,
}
use xdk.Parasite.Attach
use xdk.Parasite.Order.{CountsLeadingZeros, order_of_lem}
use xdk.Parasite.Own.{own, others, freed, dma_free_store_lem}
use xdk.Parasite.Share.{grant_access_store-same}
use xdk.Parasite.Alloc.{Allocates, dma_alloc_store_lem}
use xdk.Parasite.Config.{irq_mode_store, irq_mode_at, reset_masking, SetsMode, irq_mode_store_lem}

-- The leading zeros of a 64-bit number, counted by halving
count_zeros : ℕ → ℕ → ℕ
count_zeros zero n = 0
count_zeros (suc bits) n = if ltb n (2 ^ bits) then 1 + count_zeros bits n else 0

count_zeros-counts :
    (bits n : ℕ)
    → 0 < n
    → n < 2 ^ bits
    → (count_zeros bits n < bits)
      × (2 ^ (bits - suc (count_zeros bits n)) ≤ n)
      × (n < 2 ^ (bits - count_zeros bits n))
unfolding count_zeros
count_zeros-counts zero n pos small = absurd (omega arith)
count_zeros-counts (suc bits) n pos small = elim (Bool-cases (ltb n (2 ^ bits))) [
  | inl e ↦
      let (lt, low, high) = count_zeros-counts bits n pos (ground arith) in
      let p : suc bits - suc (1 + count_zeros bits n) ≡ bits - suc (count_zeros bits n) =
        omega arith in
      let q : suc bits - (1 + count_zeros bits n) ≡ bits - count_zeros bits n = omega arith in
      rw (e, count_zeros) (rw (p, q) (omega arith, low, high))
  | inr e ↦
      let p : suc bits - 1 ≡ bits = omega arith in
      let z : suc bits ≡ suc bits - 0 = omega arith in
      rw (e, count_zeros) (rw p (omega arith, ground arith, subst (λ j. n < 2 ^ j) z small))
]

clzl_documented : CountsLeadingZeros (count_zeros 64)
clzl_documented n pos small =
    let (lt, low, high) = count_zeros-counts 64 n pos small in
    let p : 64 - suc (count_zeros 64 n) ≡ 63 - count_zeros 64 n = omega arith in
    (lt, subst (λ j. 2 ^ j ≤ n) p low, high)

abbrev linux : Linux
linux = record {
  clzl = count_zeros 64;
  max_order = 11;
  numa_node_id = 0;
  kmalloc = true;
  alloc_pages = λ zone order. some 9;
  dma_map_page = λ page size direction. page * page_size;
  dma_to_phys = λ handle. handle;
}

order_of_lem_example : (5 ≤ 2 ^ order_of linux 5) × (2 ^ order_of linux 5 < 2 * 5)
order_of_lem_example = order_of_lem linux 5 clzl_documented (omega arith) (omega arith)

-- Process 7 of user 100 owns two areas, and process 8 one between them.
abbrev area : ℕ → ℕ → Area
area pid phys = record {
  dma_direction = 0;
  node_id = 0;
  order = 0;
  handle = phys;
  phys_addr = phys;
  owner_pid = pid;
  flags = 0;
}

abbrev card : Device
card = record {
  pci = record { bus = 3; slot = 0; func = 1 };
  minor = 0;
  dma_mask = 2 ^ 32 - 1;
  irq_mode = IrqMode.nonmasking;
  areas = area 7 4096 ∷ area 8 8192 ∷ area 7 12288 ∷ [];
}

abbrev grants : List Grant
grants = record { bus = 3; slot = 0; func = 1; uid = 100 } ∷ []

abbrev process : Caller
process = record { pid = 7; uid = 100 }

dma_free_store_lem_example :
    let (out, d') = dma_free_store grants process FreeRequest.all 1 card in
    if check_authority grants process card.pci
    then (out ≡ done 1)
      × (others 7 d'.areas ≡ others 7 card.areas)
      × (own 7 d'.areas ≡ freed FreeRequest.all (own 7 card.areas))
    else (out ≡ error Errno.perm) × (d' ≡ card)
dma_free_store_lem_example = dma_free_store_lem grants process FreeRequest.all 1 card

-- The area of process 8 is the one that is left.
frees_own : (dma_free_store grants process FreeRequest.all 1 card).1.areas ≡ area 8 8192 ∷ []
unfolding dma_free_store Dma.free_areas Dma.free_all_areas check_authority is_device_granted
frees_own = refl

abbrev loaded_kernel : Kernel
loaded_kernel = record { devices = card ∷ []; grants = grants }

grant_access_store-same_example :
    let (out, k') = grant_access_store process (some 4096) 6 card loaded_kernel in
    (k' ≡ loaded_kernel)
    × ((remap : Vma → Bool) (other : Caller) (vma : Vma)
        → fops_mmap remap other vma k'.devices ≡ fops_mmap remap other vma (card ∷ []))
grant_access_store-same_example = grant_access_store-same process (some 4096) 6 card loaded_kernel

-- A mapping of 16 pages at an area of one page
abbrev wide : Vma
wide = record { vm_start = 0; vm_end = 65536; vm_pgoff = 1 }

abbrev remaps : Vma → Bool
remaps vma = false

dma_alloc_store_lem_example :
    let r = dma_alloc_store linux grants process (AllocRequest.request 5 none 0) 3 card in
    (check_authority grants process card.pci ≡ true
      → Allocates linux process 3 card (AllocRequest.request 5 none 0) r)
    × (check_authority grants process card.pci ≡ false → r ≡ (error Errno.perm, card))
dma_alloc_store_lem_example =
    dma_alloc_store_lem linux process 3 card grants (AllocRequest.request 5 none 0) clzl_documented
      (omega arith, omega arith)

-- The mask of `card` is that of 32 bits.
zone_of_card : zone_of linux card.dma_mask ≡ Zone.dma32
unfolding zone_of
zone_of_card = refl

-- A run: a device comes, user 100 is granted it, and process 7 allocates.
abbrev core : Attach.Linux
core = record {
  max_devices = 2 ^ 20;
  kzalloc = true;
  idr_get_new = λ ds. some 0;
  device_create = true;
  name = λ minor. minor ∷ [];
}

abbrev slot : Pci
slot = record { bus = 3; slot = 0; func = 1 }

abbrev fresh : Device
fresh = record {
  pci = slot;
  minor = 0;
  dma_mask = 2 ^ 32 - 1;
  irq_mode = IrqMode.nonmasking;
  areas = [];
}

abbrev running : Kernel
running = record {
  devices = (dma_alloc_store linux grants process (AllocRequest.request 5 none 0) 3 fresh).1 ∷ [];
  grants = grants;
}

-- Another process under the same id, whose user has been granted nothing, maps the memory.
abbrev successor : Caller
successor = record { pid = 7; uid = 200 }

abbrev page_nine : Vma
page_nine = record { vm_start = 0; vm_end = 4096; vm_pgoff = 9 }

irq_mode_store_lem_example :
    let r = irq_mode_store grants process (40 ∷ 41 ∷ []) (some 3) 2 card in
    (check_authority grants process card.pci ≡ false → r ≡ (error Errno.perm, card, []))
    × (check_authority grants process card.pci ≡ true
        → (◌≡◌ {A = Option ℕ} (some 3) none → r ≡ (error Errno.inval, card, []))
          × ((mode : ℕ)
              → ◌≡◌ {A = Option ℕ} (some 3) (some mode)
              → SetsMode (40 ∷ 41 ∷ []) mode 2 card r))
irq_mode_store_lem_example = irq_mode_store_lem grants process (40 ∷ 41 ∷ []) (some 3) 2 card

-- Mode 3 disables both vectors and leaves the mode non-masking.
mode_three :
    irq_mode_store grants process (40 ∷ 41 ∷ []) (some 3) 2 card
    ≡ (done 2, card, (40, false) ∷ (41, false) ∷ [])
unfolding check_authority is_device_granted irq_mode_store irq_mode_at reset_masking
mode_three = refl
