-- ===== src/ShadowBd/Sectors.antt =====
-- Which sectors the commands of a request ask for.
use xdk.Prelude.{
  ℕ, zero, suc, ◌+◌, ◌/◌, ◌%◌, ◌≡◌, ◌∙◌, refl, sym, ap, ap₂, arith, Bool, true, false, List, [],
  ◌∷◌, ◌++◌, if◌then◌else◌, ◌==◌, Bool-cases, inl, inr,
}
use xdk.ShadowBd.{
  Command, read, write, Protocol, Segment, sector_size, command_for, each_segment, perform_request,
}

-- The sectors from `a` on
pub range : ℕ → ℕ → List ℕ
range a zero = []
range a (suc n) = a ∷ range (suc a) n

range-append : (a m n : ℕ) → range a (m + n) ≡ range a m ++ range (a + m) n
unfolding range
range-append a zero n =
    let p : a + 0 ≡ a = omega arith in let q : 0 + n ≡ n = omega arith in rw (p, q)
range-append a (suc m) n =
    let p : suc m + n ≡ suc (m + n) = omega arith in
    let q : suc a + m ≡ a + suc m = omega arith in
    rw p (ap (λ l. a ∷ l) (range-append (suc a) m n ∙ ap (λ j. range (suc a) m ++ range j n) q))

-- The sectors that commands ask for, in order
pub sectors_of : List Protocol → List ℕ
sectors_of [] = []
sectors_of (c ∷ cs) = range c.offset c.sectors ++ sectors_of cs

pub total : List Segment → ℕ
total [] = 0
total (s ∷ ss) = s.bv_len / sector_size + total ss

abbrev pub AllAligned : List Segment → Type 0
AllAligned [] = Unit
AllAligned (s ∷ ss) = (s.bv_len % sector_size ≡ 0) × AllAligned ss

-- What the loop computes, for reads
loop_lem :
    (start offset : ℕ) (pending : Protocol) (segs : List Segment)
    → let r = each_segment read start offset pending segs in
      (r.0.0 ≡ offset + total segs) × (sectors_of r.1 ≡ range (start + offset) (total segs))
unfolding each_segment sectors_of range total
loop_lem start offset pending [] = (omega arith, refl)
loop_lem start offset pending (s ∷ ss) =
    let (o, l) = loop_lem start (offset + s.bv_len / sector_size) _ ss in
    let p : start + (offset + s.bv_len / sector_size) ≡ start + offset + s.bv_len / sector_size =
      omega arith in
    (
      o ∙ omega arith,
      ap (λ t. range (start + offset) (s.bv_len / sector_size) ++ t)
            (l ∙ ap (λ j. range j (total ss)) p)
          ∙ sym (range-append (start + offset) (s.bv_len / sector_size) (total ss)),
    )

aligned_lem :
    (dir : Command) (start offset : ℕ) (pending : Protocol) (segs : List Segment)
    → (each_segment dir start offset pending segs).0.1 ≡ true
    → AllAligned segs
unfolding each_segment
aligned_lem dir start offset pending [] e = tt
aligned_lem dir start offset pending (s ∷ ss) e = elim (Bool-cases (s.bv_len % sector_size == 0)) [
  | inr f ↦ let g : false ≡ true = rw (f, each_segment) at e in cc
  | inl f ↦ (
    ground arith,
    aligned_lem dir start (offset + s.bv_len / sector_size)
        (command_for dir (start + offset) s pending) ss (rw (f, each_segment) at e),
  )
]

succeeds_lem :
    (dir : Command) (start offset : ℕ) (pending : Protocol) (segs : List Segment)
    → AllAligned segs
    → (each_segment dir start offset pending segs).0.1 ≡ true
unfolding each_segment
succeeds_lem dir start offset pending [] a = refl
succeeds_lem dir start offset pending (s ∷ ss) (h, hs) =
    let f : (s.bv_len % sector_size == 0) ≡ true = ground arith in
    rw (f, each_segment)
      (succeeds_lem dir start (offset + s.bv_len / sector_size)
        (command_for dir (start + offset) s pending) ss hs)

-- A read: it succeeds exactly if every segment is a multiple of 512 bytes and the segments add up to the
-- sectors of the request; the commands posted then ask for those sectors, each once and in order.
perform_request_reads :
    (start_sector sector_cnt : ℕ) (pending : Protocol) (segs : List Segment)
    → let (ok, posted) = perform_request read start_sector sector_cnt pending segs in
      (ok ≡ true
        → AllAligned segs
          × (total segs ≡ sector_cnt)
          × (sectors_of posted ≡ range start_sector sector_cnt))
      × (AllAligned segs → total segs ≡ sector_cnt → ok ≡ true)
unfolding perform_request
perform_request_reads start sector_cnt pending segs =
    let (o, l) = loop_lem start 0 pending segs in
    let z : start + 0 ≡ start = omega arith in
    (
      λ e.
          let (c, a) = both e in
          let t : total segs ≡ sector_cnt = omega (arith, c, o) in
          (aligned_lem read start 0 pending segs a, t, l ∙ ap₂ range z t),
      λ a t. joined (o ∙ omega (arith, t)) (succeeds_lem read start 0 pending segs a),
    )
  where
    last : ℕ
    last = (each_segment read start 0 pending segs).0.0

    fine : Bool
    fine = (each_segment read start 0 pending segs).0.1

    both : (if last == sector_cnt then fine else false) ≡ true → (last ≡ sector_cnt) × (fine ≡ true)
    both e = ground arith

    joined : last ≡ sector_cnt → fine ≡ true → (if last == sector_cnt then fine else false) ≡ true
    joined c a = ground arith

-- One copy for each segment
pub for_each : List Segment → Protocol → List Protocol
for_each [] c = []
for_each (s ∷ ss) c = c ∷ for_each ss c

writes_lem :
    (start offset : ℕ) (pending : Protocol) (segs : List Segment)
    → (each_segment write start offset pending segs).1
      ≡ for_each segs (record pending { command = write })
unfolding each_segment for_each
writes_lem start offset pending [] = refl
writes_lem start offset pending (s ∷ ss) =
    ap (λ l. record pending { command = write } ∷ l)
      (writes_lem start (offset + s.bv_len / sector_size) (record pending { command = write }) ss)

-- A read succeeds exactly if every segment is a multiple of 512 bytes and the segments add up to the
-- sectors of the request; the commands posted then ask for those sectors, each once and in order. A
-- write posts one command for each segment, all of them with the offset, the sectors and the
-- address of the command that was pending before: none of them says what to write, or where.
pub perform_request_lem :
    (start_sector sector_cnt : ℕ) (pending : Protocol) (segs : List Segment)
    → let (ok, posted) = perform_request read start_sector sector_cnt pending segs in
      (ok ≡ true
        → AllAligned segs
          × (total segs ≡ sector_cnt)
          × (sectors_of posted ≡ range start_sector sector_cnt))
      × (AllAligned segs → total segs ≡ sector_cnt → ok ≡ true)
      × ((perform_request write start_sector sector_cnt pending segs).1
          ≡ for_each segs (record pending { command = write }))
unfolding perform_request
perform_request_lem start sector_cnt pending segs =
    let (sound, complete) = perform_request_reads start sector_cnt pending segs in
    (sound, complete, writes_lem start 0 pending segs)
