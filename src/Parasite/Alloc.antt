-- ===== src/Parasite/Alloc.antt =====
-- What `dma_alloc_store` does to the list of areas of its device.
use xdk.Prelude.{
  ℕ, ◌-◌, ◌*◌, ◌^◌, ◌<◌, ◌≤◌, ◌≡◌, ◌≢◌, refl, sym, subst, arith, true, false, Option, none, some,
  List, ◌∷◌, ◌==◌, leb, ltb, Bool-cases, ◌⊎◌, inl, inr,
}
use xdk.Parasite.{Errno, Outcome, done, error, oops, Area, Grant, Device, Caller, check_authority}
use xdk.Parasite.Dma.{
  Linux, Zone, AllocRequest, invalid, request, page_size, order_of, zone_of, node_of, map_area,
  page_or_error, alloc_area, alloc_request, dma_alloc_store,
}
use xdk.Parasite.Order.{CountsLeadingZeros, order_of_lem}

-- The last address of a zone, as the kernel documents it: ZONE_DMA ends at 16 MB, ZONE_DMA32 at 4 GB.
abbrev pub zone_top : Zone → ℕ
zone_top Zone.dma = 2 ^ 24 - 1
zone_top Zone.dma32 = 2 ^ 32 - 1
zone_top Zone.normal = 2 ^ 64 - 1

-- The zone that a device with this mask is given: the largest one that it can reach as a whole, or
-- ZONE_DMA where it can reach none.
pub record BestZone (dma_mask : ℕ) (zone : Zone) : Type 0 where
  pub reached : (zone_top zone ≤ dma_mask) ⊎ (zone ≡ Zone.dma)
  pub largest : (z : Zone) → zone_top z ≤ dma_mask → zone_top z ≤ zone_top zone

zone_of-BestZone : (linux : Linux) (dma_mask : ℕ) → BestZone dma_mask (zone_of linux dma_mask)
unfolding zone_of
zone_of-BestZone linux dma_mask = elim (Bool-cases (ltb dma_mask (2 ^ 64 - 1))) [
  | inr e ↦ rw (e, zone_of) (record { reached = inl (ground arith); largest = λ z h. top z })
  | inl e ↦ elim (Bool-cases (ltb dma_mask (2 ^ 32 - 1))) [
    | inr f ↦
        rw (e, f, zone_of)
          (record { reached = inl (ground arith); largest = below_top dma_mask (ground arith) })
    | inl f ↦
        rw (e, f, zone_of)
          (record { reached = inr refl; largest = below_4gb dma_mask (ground arith) })
  ]
]
  where
    top : (z : Zone) → zone_top z ≤ zone_top Zone.normal
    top Zone.dma = omega arith
    top Zone.dma32 = omega arith
    top Zone.normal = omega arith

    below_top :
        (m : ℕ) → m < 2 ^ 64 - 1 → (z : Zone) → zone_top z ≤ m → zone_top z ≤ zone_top Zone.dma32
    below_top m lt Zone.dma h = omega arith
    below_top m lt Zone.dma32 h = omega arith
    below_top m lt Zone.normal h = absurd (omega arith)

    below_4gb :
        (m : ℕ) → m < 2 ^ 32 - 1 → (z : Zone) → zone_top z ≤ m → zone_top z ≤ zone_top Zone.dma
    below_4gb m lt Zone.dma h = omega arith
    below_4gb m lt Zone.dma32 h = absurd (omega arith)
    below_4gb m lt Zone.normal h = absurd (omega arith)

-- The block that a request of so many pages on a node calls for
pub record Fitting (linux : Linux) (d : Device) (num_pages : ℕ) (node_id : Option ℕ) (order : ℕ)
    (zone : Zone) (node : ℕ) : Type 0 where
  pub enough : num_pages ≤ 2 ^ order
  pub least : 2 ^ order < 2 * num_pages
  pub best : BestZone d.dma_mask zone
  pub current : node_id ≡ none → node ≡ linux.numa_node_id
  pub asked : (n : ℕ) → node_id ≡ some n → node ≡ n

-- `__builtin_clzl` is defined on 1 to 2 ^ 64 - 1.
abbrev pub Sized : AllocRequest → Type 0
Sized invalid = Unit
Sized (request num_pages node_id direction) = (0 < num_pages) × (num_pages < 2 ^ 64)

module _ (linux : Linux) (caller : Caller) (count : ℕ) (d : Device) where
  -- The area that the caller gets from a page
  abbrev pub area_of : (order node direction page : ℕ) → Area
  area_of order node direction page =
      let handle = linux.dma_map_page page (2 ^ order * page_size) direction in
      record {
        dma_direction = direction;
        node_id = node;
        order = order;
        handle = handle;
        phys_addr = linux.dma_to_phys handle;
        owner_pid = caller.pid;
        flags = 0;
      }

  -- One new area in front, or none and no success
  pub data Allocates : AllocRequest → Outcome × Device → Type 0 where
    unreadable : Allocates invalid (error Errno.inval, d)
    crashed :
        {num_pages direction order node : ℕ} {node_id : Option ℕ} {zone : Zone}
        → Fitting linux d num_pages node_id order zone node
        → order < linux.max_order
        → linux.kmalloc ≡ false
        → Allocates (request num_pages node_id direction) (oops, d)
    too_large :
        {num_pages direction order node : ℕ} {node_id : Option ℕ} {zone : Zone}
        → Fitting linux d num_pages node_id order zone node
        → linux.max_order ≤ order
        → Allocates (request num_pages node_id direction) (error Errno.range, d)
    no_pages :
        {num_pages direction order node : ℕ} {node_id : Option ℕ} {zone : Zone}
        → Fitting linux d num_pages node_id order zone node
        → order < linux.max_order
        → linux.kmalloc ≡ true
        → linux.alloc_pages zone order ≡ none
        → Allocates (request num_pages node_id direction) (error Errno.nomem, d)
    not_mapped :
        {num_pages direction order node page : ℕ} {node_id : Option ℕ} {zone : Zone}
        → Fitting linux d num_pages node_id order zone node
        → order < linux.max_order
        → linux.kmalloc ≡ true
        → linux.alloc_pages zone order ≡ some page
        → linux.dma_map_page page (2 ^ order * page_size) direction ≡ 0
        → Allocates (request num_pages node_id direction) (error Errno.nomem, d)
    allocated :
        {num_pages direction order node page : ℕ} {node_id : Option ℕ} {zone : Zone}
        → Fitting linux d num_pages node_id order zone node
        → order < linux.max_order
        → linux.kmalloc ≡ true
        → linux.alloc_pages zone order ≡ some page
        → linux.dma_map_page page (2 ^ order * page_size) direction ≢ 0
        → Allocates
            (request num_pages node_id direction)
            (done count, record d { areas = area_of order node direction page ∷ d.areas })

  page-Allocates :
      {num_pages direction order node : ℕ} {node_id : Option ℕ} (zone : Zone) (r : Option ℕ)
      → Fitting linux d num_pages node_id order zone node
      → order < linux.max_order
      → linux.kmalloc ≡ true
      → linux.alloc_pages zone order ≡ r
      → Allocates
          (request num_pages node_id direction)
          (page_or_error linux caller order node direction count d r)
  unfolding page_or_error map_area
  page-Allocates zone none fit lt k e = no_pages fit lt k e
  page-Allocates {direction = direction} {order} zone (some page) fit lt k e =
      elim (Bool-cases (linux.dma_map_page page (2 ^ order * page_size) direction == 0)) [
        | inl f ↦ rw (f, map_area) (not_mapped fit lt k e (ground arith))
        | inr f ↦ rw (f, map_area) (allocated fit lt k e (λ p. ground arith))
      ]

  request-Fitting :
      (num_pages : ℕ) (node_id : Option ℕ)
      → CountsLeadingZeros linux.clzl
      → 0 < num_pages
      → num_pages < 2 ^ 64
      → Fitting linux d num_pages node_id
          (order_of linux num_pages)
          (zone_of linux d.dma_mask)
          (node_of linux node_id)
  request-Fitting num_pages node_id doc pos small =
      let (enough, least) = order_of_lem linux num_pages doc pos small in
      record {
        enough = enough;
        least = least;
        best = zone_of-BestZone linux d.dma_mask;
        current = λ e. rw e refl;
        asked = λ n e. rw e refl;
      }

  area-Allocates :
      {num_pages direction order node : ℕ} {node_id : Option ℕ}
      → Fitting linux d num_pages node_id order (zone_of linux d.dma_mask) node
      → order < linux.max_order
      → Allocates
          (request num_pages node_id direction)
          (alloc_area linux caller order node direction count d)
  unfolding alloc_area
  area-Allocates {num_pages} {direction} {order} {node} {node_id} fit lt =
      elim (Bool-cases linux.kmalloc) [
        | inr f ↦
            subst (Allocates (request num_pages node_id direction)) (sym (simp (f, alloc_area)))
              (crashed fit lt f)
        | inl f ↦
            subst (Allocates (request num_pages node_id direction)) (sym (simp (f, alloc_area)))
              (page-Allocates (zone_of linux d.dma_mask) _ fit lt f refl)
      ]

  request-Allocates :
      (buf : AllocRequest)
      → CountsLeadingZeros linux.clzl
      → Sized buf
      → Allocates buf (alloc_request linux caller buf count d)
  unfolding alloc_request
  request-Allocates invalid doc sized = unreadable
  request-Allocates (request num_pages node_id direction) doc (pos, small) =
      let fit = request-Fitting num_pages node_id doc pos small in
      elim (Bool-cases (leb linux.max_order (order_of linux num_pages))) [
        | inl e ↦ rw (e, alloc_request) (too_large fit (ground arith))
        | inr e ↦ rw (e, alloc_request) (area-Allocates fit (ground arith))
      ]

  -- For a `__builtin_clzl` as documented, and 1 to 2 ^ 64 - 1 pages: `dma_alloc_store` refuses
  -- permission, and changes nothing, if the caller's user has not been granted the device. Otherwise
  -- it puts one area of the caller in front of the others and returns the number of bytes: a block of
  -- the least power of two of pages that holds those asked for, from the largest zone that the mask
  -- of the device reaches, with the node asked for or the current one. Or it changes nothing and
  -- returns the error of an unreadable request, of an order beyond the limit, of missing pages or of
  -- a failed mapping; or it writes through NULL, where `kmalloc` fails.
  pub dma_alloc_store_lem :
      (grants : List Grant) (buf : AllocRequest)
      → CountsLeadingZeros linux.clzl
      → Sized buf
      → let r = dma_alloc_store linux grants caller buf count d in
        (check_authority grants caller d.pci ≡ true → Allocates buf r)
        × (check_authority grants caller d.pci ≡ false → r ≡ (error Errno.perm, d))
  unfolding dma_alloc_store
  dma_alloc_store_lem grants buf doc sized =
      (λ e. rw (e, dma_alloc_store) (request-Allocates buf doc sized), λ e. rw (e, dma_alloc_store))
