-- ===== src/ShadowBd.antt =====
-- kernel/modules/shadow_bd/shadow_block.c: `shadow_perform_request`, which turns a request of the
-- block layer into commands to the program in user space that stands behind the device.
pub mod Handshake
pub mod Sectors
mod Tests
use xdk.Prelude.{ℕ, ◌+◌, ◌/◌, ◌%◌, Bool, true, false, not, List, [], ◌∷◌, if◌then◌else◌, ◌==◌}

-- `SBD_SECTOR_SIZE`
abbrev pub sector_size : ℕ
sector_size = 512

-- `PROTOCOL_CMD_READ` and `PROTOCOL_CMD_WRITE`
pub data Command : Type 0 where
  read write : Command

-- `shadow_protocol_t`, with the fields of reads and writes
pub record Protocol : Type 0 where
  pub command : Command
  pub offset : ℕ
  pub sectors : ℕ
  pub phys_addr : ℕ

-- A `bio_vec`: the physical address of its buffer, and `bv_len`
pub record Segment : Type 0 where
  pub phys : ℕ
  pub bv_len : ℕ

-- The command of one segment: a write sets the command only.
abbrev pub command_for : Command → ℕ → Segment → Protocol → Protocol
command_for write sector seg old = record old { command = write }
command_for read sector seg old = record {
  command = read;
  offset = sector;
  sectors = seg.bv_len / sector_size;
  phys_addr = seg.phys;
}

-- The loop over the segments, from a value of `sector_offset` and of `pending_command`: the last
-- `sector_offset`, whether `ret` is still 0, and the commands handed to user space, in order
unfoldable pub each_segment : Command → ℕ → ℕ → Protocol → List Segment → (ℕ × Bool) × List Protocol
each_segment dir start_sector sector_offset pending [] = ((sector_offset, true), [])
each_segment dir start_sector sector_offset pending (seg ∷ segs) =
    let cmd = command_for dir (start_sector + sector_offset) seg pending in
    let rest = each_segment dir start_sector (sector_offset + seg.bv_len / sector_size) cmd segs in
    ((rest.0.0, if seg.bv_len % sector_size == 0 then rest.0.1 else false), cmd ∷ rest.1)

-- `shadow_perform_request`: true is success, false -EIO
unfoldable pub perform_request :
    Command → (start_sector sector_cnt : ℕ) → Protocol → List Segment → Bool × List Protocol
unfolding each_segment
perform_request dir start_sector sector_cnt pending segs =
    let loop = each_segment dir start_sector 0 pending segs in
    (if loop.0.0 == sector_cnt then loop.0.1 else false, loop.1)
