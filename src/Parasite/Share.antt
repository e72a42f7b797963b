-- ===== src/Parasite/Share.antt =====
-- `grant_access_store` and the lookup `get_owned_dma_area` that it shares with `fops_mmap`.
use Prim.Native.Nat.{bit_or, bit_or-bitwise, digits}
use xdk.Prelude.{
  ℕ, zero, suc, ◌/◌, ◌≤◌, ◌≡◌, ◌∙◌, refl, ap, arith, Bool, true, Option, none, some, List, [], ◌∷◌,
  Bool-cases, inl, inr, max,
}
use mathlib.Core.List.{Memᴰ}
use xdk.Parasite.{Area, Device, Kernel, Caller, check_authority}
use xdk.Parasite.Dma.{
  Vma, is_owned, owned_in_areas, get_owned_dma_area, set_owned_in_areas, set_owned, share,
  share_found, share_at, grant_access_store, fops_mmap,
}

digits_zero : (n a : ℕ) → a ≤ n → digits (λ b. b) max n a 0 ≡ a
digits_zero zero zero h = refl
digits_zero zero (suc a) h = absurd (omega arith)
digits_zero (suc n) zero h = refl
digits_zero (suc n) (suc a) h = omega (arith, digits_zero n (suc a / 2) (omega arith))

bit_or-zero : (a : ℕ) → bit_or a 0 ≡ a
bit_or-zero a = bit_or-bitwise a 0 ∙ digits_zero a a (omega arith)

share-same : (a : Area) → share a ≡ a
share-same a = ap (λ x. record a { flags = x }) (bit_or-zero a.flags)

set_owned_in_areas-same : (pid addr : ℕ) (l : List Area) → set_owned_in_areas share pid addr l ≡ l
unfolding set_owned_in_areas
set_owned_in_areas-same pid addr [] = refl
set_owned_in_areas-same pid addr (a ∷ l) = elim (Bool-cases (is_owned pid addr a)) [
  | inl e ↦ rw (e, set_owned_in_areas) (ap (λ x. x ∷ l) (share-same a))
  | inr e ↦ rw (e, set_owned_in_areas) (ap (λ t. a ∷ t) (set_owned_in_areas-same pid addr l))
]

set_owned-same : (pid addr : ℕ) (ds : List Device) → set_owned share pid addr ds ≡ ds
unfolding set_owned
set_owned-same pid addr [] = refl
set_owned-same pid addr (d ∷ ds) =
    elim (owned_in_areas pid addr d.areas)
      as (λ r.
        ◌≡◌ {A = List Device}
          (elim r [
            | none ↦ d ∷ set_owned share pid addr ds
            | some a ↦ record d { areas = set_owned_in_areas share pid addr d.areas } ∷ ds
          ])
          (d ∷ ds)) [
            | none ↦ ap (λ t. d ∷ t) (set_owned-same pid addr ds)
            | some a ↦
                ap (λ l. record d { areas = l } ∷ ds) (set_owned_in_areas-same pid addr d.areas)
          ]

pub grant_access_store-kernel :
    (caller : Caller) (buf : Option ℕ) (count : ℕ) (d : Device) (k : Kernel)
    → (grant_access_store caller buf count d k).1 ≡ k
unfolding grant_access_store share_found share_at
grant_access_store-kernel caller buf count d k =
    elim (Bool-cases (check_authority k.grants caller d.pci)) [
      | inr e ↦ rw (e, grant_access_store)
      | inl e ↦ rw (e, grant_access_store) (on_request buf)
    ]
  where
    on_found : (addr : ℕ) (r : Option Area) → (share_found caller addr count k r).1 ≡ k
    on_found addr none = refl
    on_found addr (some a) =
        ap (λ ds. record k { devices = ds }) (set_owned-same caller.pid addr k.devices)

    on_request : (b : Option ℕ) → (share_at caller b count k).1 ≡ k
    on_request none = refl
    on_request (some addr) = on_found addr (get_owned_dma_area caller.pid addr k.devices)

-- `DMA_AREA_FLAG_SHARED_ALL` is 0, and no lookup reads the flags: whatever `grant_access_store`
-- answers, the devices and the grants are afterwards what they were, so that every mapping that was
-- refused before, to any process, is refused after it.
pub grant_access_store-same :
    (caller : Caller) (buf : Option ℕ) (count : ℕ) (d : Device) (k : Kernel)
    → let (out, k') = grant_access_store caller buf count d k in
      (k' ≡ k)
      × ((remap : Vma → Bool) (other : Caller) (vma : Vma)
          → fops_mmap remap other vma k'.devices ≡ fops_mmap remap other vma k.devices)
grant_access_store-same caller buf count d k =
    let e = grant_access_store-kernel caller buf count d k in
    (e, λ remap other vma. ap (λ s. fops_mmap remap other vma s.devices) e)

-- An area of some attached device that the process owns at the address
pub record Owns (pid addr : ℕ) (devices : List Device) : Type 0 where
  pub device : Device
  pub area : Area
  pub attached : Memᴰ device devices
  pub listed : Memᴰ area device.areas
  pub owned : is_owned pid addr area ≡ true
