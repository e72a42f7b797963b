-- ===== src/ShadowBd/Tests.antt =====
-- The theorems on a request of three sectors in two segments.
use xdk.Prelude.{◌<◌, ◌≡◌, refl, true, List, [], ◌∷◌}
use xdk.ShadowBd.{Command, Protocol, Segment, each_segment, perform_request}
use xdk.ShadowBd.Handshake.{
  Shadow, Driver, Step, Reach, here, next, reader_waits, post, wait_write, wait_read, go_on,
  no_wait,
}
use xdk.ShadowBd.Sectors.{AllAligned, total, sectors_of, range, for_each, perform_request_lem}

abbrev stale : Protocol
stale = record { command = Command.read; offset = 40; sectors = 8; phys_addr = 4096 }

abbrev segments : List Segment
segments = record { phys = 8192; bv_len = 512 } ∷ record { phys = 16384; bv_len = 1024 } ∷ []

perform_request_lem_example :
    let (ok, posted) = perform_request Command.read 100 3 stale segments in
    (ok ≡ true → AllAligned segments × (total segments ≡ 3) × (sectors_of posted ≡ range 100 3))
    × (AllAligned segments → total segments ≡ 3 → ok ≡ true)
    × ((perform_request Command.write 100 3 stale segments).1
        ≡ for_each segments (record stale { command = Command.write }))
perform_request_lem_example = perform_request_lem 100 3 stale segments

reads_in_order :
    (perform_request Command.read 100 3 stale segments).1
    ≡ record { command = Command.read; offset = 100; sectors = 1; phys_addr = 8192 }
      ∷ record { command = Command.read; offset = 101; sectors = 2; phys_addr = 16384 }
      ∷ []
unfolding perform_request each_segment
reads_in_order = refl

-- After a write that nobody acknowledged, a read that nobody has acknowledged either
abbrev stale_write : Protocol
stale_write = record stale { command = Command.write }

abbrev in_read : Shadow
in_read = record {
  request_queue_flag = true;
  ack_queue_flag = true;
  pending = stale;
  driver = Driver.for_ack Command.read;
  waiting = true;
  got = [];
  segments_done = 1;
}

in_read_reached : Reach stale in_read
in_read_reached =
    next
      (next
        (next
          (next
            (next
              (next (next (next here reader_waits) (Step.command stale_write refl))
                (post Command.write refl refl))
              (wait_write refl))
            (go_on Command.write refl refl))
          (Step.command stale refl))
        (post Command.read refl refl))
      (wait_read refl)

no_wait_example :
    (Driver.for_ack Command.read ≡ Driver.for_ack Command.write
      → Step in_read (record in_read { driver = Driver.between; segments_done = 2 }))
    × ((dir : Command)
        → Driver.for_ack Command.read ≡ Driver.for_ack dir
        → 0 < 1
        → Step in_read (record in_read { driver = Driver.between; segments_done = 2 }))
no_wait_example = no_wait in_read_reached
