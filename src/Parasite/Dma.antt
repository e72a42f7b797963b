-- ===== src/Parasite/Dma.antt =====
-- pk_class.c, common.c and pk_fops.c: DMA areas, from their allocation to their mapping.
use xdk.Prelude.{
  ℕ, ◌-◌, ◌*◌, ◌%◌, ◌^◌, Bool, true, false, not, Option, none, some, List, [], ◌∷◌, if◌then◌else◌,
  ◌==◌, ◌&&◌, leb, ltb,
}
use Prim.Native.Nat.{bit_or}
use xdk.Parasite.{
  Errno, Outcome, done, error, oops, Area, Grant, Device, Kernel, Caller, check_authority,
}

abbrev pub page_size : ℕ
page_size = 4096

-- `DMA_AREA_FLAG_SHARED_ALL`
abbrev pub flag_shared_all : ℕ
flag_shared_all = 0

pub data Zone : Type 0 where
  normal dma dma32 : Zone

-- What the handlers call of the compiler and the kernel. `none` is NULL, and 0 a failed mapping.
pub record Linux : Type 0 where
  pub clzl : ℕ → ℕ
  pub max_order : ℕ
  pub numa_node_id : ℕ
  pub kmalloc : Bool
  pub alloc_pages : Zone → ℕ → Option ℕ
  pub dma_map_page : ℕ → ℕ → ℕ → ℕ
  pub dma_to_phys : ℕ → ℕ

-- What `sscanf` makes of "N M D" or "N M"; a node below 0 is `none`.
pub data AllocRequest : Type 0 where
  invalid : AllocRequest
  request : (num_pages : ℕ) (node_id : Option ℕ) (direction : ℕ) → AllocRequest

module _ (linux : Linux) where
  -- The least order whose block holds the pages
  unfoldable pub order_of : ℕ → ℕ
  order_of num_pages =
      let order = 64 - linux.clzl num_pages in
      if 2 ^ (order - 1) == num_pages then order - 1 else order

  unfoldable pub zone_of : ℕ → Zone
  zone_of dma_mask =
      if ltb dma_mask (2 ^ 64 - 1)
      then (if ltb dma_mask (2 ^ 32 - 1) then Zone.dma else Zone.dma32)
      else Zone.normal

  -- A negative node is the current one.
  abbrev pub node_of : Option ℕ → ℕ
  node_of none = linux.numa_node_id
  node_of (some n) = n

  -- The end of `dma_alloc_store`, from `dma_map_page` on
  unfoldable pub map_area : Caller → ℕ → ℕ → ℕ → ℕ → ℕ → Device → Outcome × Device
  map_area caller order node direction page count d =
      let handle = linux.dma_map_page page (2 ^ order * page_size) direction in
      let area : Area = record {
        dma_direction = direction;
        node_id = node;
        order = order;
        handle = handle;
        phys_addr = linux.dma_to_phys handle;
        owner_pid = caller.pid;
        flags = 0;
      } in
      if handle == 0
      then (error Errno.nomem, d)
      else (done count, record d { areas = area ∷ d.areas })

  -- `dma_alloc_store` behind its checks: from `alloc_pages` on, and from `kmalloc` on
  unfoldable pub page_or_error : Caller → ℕ → ℕ → ℕ → ℕ → Device → Option ℕ → Outcome × Device
  page_or_error caller order node direction count d none = (error Errno.nomem, d)
  page_or_error caller order node direction count d (some page) =
      map_area caller order node direction page count d

  unfoldable pub alloc_area : Caller → ℕ → ℕ → ℕ → ℕ → Device → Outcome × Device
  unfolding page_or_error
  alloc_area caller order node direction count d =
      if not linux.kmalloc
      then (oops, d)
      else page_or_error caller order node direction count d
          (linux.alloc_pages (zone_of d.dma_mask) order)

  -- `dma_alloc_store` behind the check of authority
  unfoldable pub alloc_request : Caller → AllocRequest → ℕ → Device → Outcome × Device
  unfolding alloc_area
  alloc_request caller invalid count d = (error Errno.inval, d)
  alloc_request caller (request num_pages node_id direction) count d =
      if leb linux.max_order (order_of num_pages)
      then (error Errno.range, d)
      else alloc_area caller (order_of num_pages) (node_of node_id) direction count d

  -- `dma_alloc_store` on the device whose attribute is written
  unfoldable pub dma_alloc_store :
      List Grant → Caller → AllocRequest → ℕ → Device → Outcome × Device
  unfolding alloc_request
  dma_alloc_store grants caller buf count d =
      if not (check_authority grants caller d.pci)
      then (error Errno.perm, d)
      else alloc_request caller buf count d

-- What `sscanf` makes of "0x..", and then `strncmp` of "*"; neither leaves the address 0.
pub data FreeRequest : Type 0 where
  address : ℕ → FreeRequest
  all : FreeRequest
  neither : FreeRequest

-- The loops of `dma_free_store`: over the areas of the caller, all or the first one at the address
unfoldable pub free_all_areas : ℕ → List Area → List Area
free_all_areas pid [] = []
free_all_areas pid (a ∷ l) =
    let rest = free_all_areas pid l in if not (a.owner_pid == pid) then a ∷ rest else rest

unfoldable pub free_area : ℕ → ℕ → List Area → List Area
free_area pid phys_addr [] = []
free_area pid phys_addr (a ∷ l) =
    let rest = free_area pid phys_addr l in
    if not (a.owner_pid == pid)
    then a ∷ rest
    else (if a.phys_addr == phys_addr then l else a ∷ rest)

unfoldable pub free_areas : ℕ → FreeRequest → List Area → List Area
unfolding free_all_areas free_area
free_areas pid (address phys_addr) l = free_area pid phys_addr l
free_areas pid all l = free_all_areas pid l
free_areas pid neither l = free_area pid 0 l

unfoldable pub dma_free_store : List Grant → Caller → FreeRequest → ℕ → Device → Outcome × Device
dma_free_store grants caller buf count d =
    if not (check_authority grants caller d.pci)
    then (error Errno.perm, d)
    else (done count, record d { areas = free_areas caller.pid buf d.areas })

-- `free_dma_memory`
pub free_dma_memory : Caller → Device → Device
free_dma_memory caller d = record d { areas = free_all_areas caller.pid d.areas }

-- `get_owned_dma_area`: the first area that the caller owns at the address
abbrev pub is_owned : ℕ → ℕ → Area → Bool
is_owned pid addr a = (a.owner_pid == pid) && (a.phys_addr == addr)

unfoldable pub owned_in_areas : ℕ → ℕ → List Area → Option Area
owned_in_areas pid addr [] = none
owned_in_areas pid addr (a ∷ l) = if is_owned pid addr a then some a else owned_in_areas pid addr l

unfoldable pub get_owned_dma_area : ℕ → ℕ → List Device → Option Area
get_owned_dma_area pid addr [] = none
get_owned_dma_area pid addr (d ∷ ds) = elim (owned_in_areas pid addr d.areas) [
  | none ↦ get_owned_dma_area pid addr ds
  | some a ↦ some a
]

-- A write to the area that `get_owned_dma_area` returns
unfoldable pub set_owned_in_areas : (Area → Area) → ℕ → ℕ → List Area → List Area
set_owned_in_areas f pid addr [] = []
set_owned_in_areas f pid addr (a ∷ l) =
    let rest = set_owned_in_areas f pid addr l in if is_owned pid addr a then f a ∷ l else a ∷ rest

unfoldable pub set_owned : (Area → Area) → ℕ → ℕ → List Device → List Device
set_owned f pid addr [] = []
set_owned f pid addr (d ∷ ds) = elim (owned_in_areas pid addr d.areas) [
  | none ↦ d ∷ set_owned f pid addr ds
  | some a ↦ record d { areas = set_owned_in_areas f pid addr d.areas } ∷ ds
]

-- `area->flags |= DMA_AREA_FLAG_SHARED_ALL`
abbrev pub share : Area → Area
share a = record a { flags = bit_or a.flags flag_shared_all }

-- The parts of `grant_access_store` behind the lookup, and behind the check of authority
unfoldable pub share_found : Caller → ℕ → ℕ → Kernel → Option Area → Outcome × Kernel
share_found caller phys_addr count k none = (error Errno.inval, k)
share_found caller phys_addr count k (some area) =
    (done count, record k { devices = set_owned share caller.pid phys_addr k.devices })

unfoldable pub share_at : Caller → Option ℕ → ℕ → Kernel → Outcome × Kernel
share_at caller none count k = (error Errno.inval, k)
share_at caller (some phys_addr) count k =
    share_found caller phys_addr count k (get_owned_dma_area caller.pid phys_addr k.devices)

-- `grant_access_store` of device `d`, with the address that `sscanf` finds
unfoldable pub grant_access_store : Caller → Option ℕ → ℕ → Device → Kernel → Outcome × Kernel
grant_access_store caller buf count d k =
    if not (check_authority k.grants caller d.pci)
    then (error Errno.perm, k)
    else share_at caller buf count k

-- `vm_area_struct`
pub record Vma : Type 0 where
  pub vm_start : ℕ
  pub vm_end : ℕ
  pub vm_pgoff : ℕ

-- `vma->vm_pgoff << PAGE_SHIFT`, an `unsigned long`
abbrev pub phys_of : ℕ → ℕ
phys_of vm_pgoff = vm_pgoff * page_size % 2 ^ 64

-- `fops_mmap`: what it maps, as a number of the first page frame and a number of bytes, or its
-- error; `remap` is `remap_pfn_range`, true where it fails.
pub data Mapping : Type 0 where
  refused : Errno → Mapping
  mapped : (pfn size : ℕ) → Mapping

unfoldable pub fops_mmap : (Vma → Bool) → Caller → Vma → List Device → Mapping
fops_mmap remap caller vma devices = elim (ltb vma.vm_end vma.vm_start) [
  | true ↦ refused Errno.inval
  | false ↦ elim (get_owned_dma_area caller.pid (phys_of vma.vm_pgoff) devices) [
    | none ↦ refused Errno.perm
    | some area ↦
        if remap vma then refused Errno.again else mapped vma.vm_pgoff (vma.vm_end - vma.vm_start)
  ]
]
