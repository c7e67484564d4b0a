-- ===== src/Storage/Scan/Ending.antt =====
-- How the scan ends behind the last record.
use io_t_delivery_fleet_moni.Prelude.{
  ℕ, zero, suc, ◌+◌, ◌-◌, ◌≤◌, ◌≡◌, ap, ◌∙◌, true, false, leb, take, drop, replicate, length, arith,
  u64, length-replicate, take_all,
}
use io_t_delivery_fleet_moni.Storage.Codec.{record_header_size}
use io_t_delivery_fleet_moni.Storage.Codec.RoundTrip.{get_u32-zeros}
use io_t_delivery_fleet_moni.Storage.Format.{ok}
use io_t_delivery_fleet_moni.Storage.Scan.{
  Source, ScanState, stop, finished, pread, all_zero, at_zero, scan_record, scan_loop, check_tail,
}
use io_t_delivery_fleet_moni.Storage.Scan.Tail.{all_zero-replicate, zero_tail_lem}
use io_t_delivery_fleet_moni.Storage.Scan.Records.{IsReadable}

-- A round at a header of zeros looks at all that follows.
pub scan_record-zeros :
    (s : Source) (st : ScanState)
    → IsReadable s
    → st.position + 32 ≤ length s.bytes
    → take 32 (drop st.position s.bytes) ≡ replicate 32 0
    → scan_record s st ≡ at_zero s st (ok (all_zero (drop st.position s.bytes)))
unfolding scan_record
scan_record-zeros s st r room zeros =
    rw (zeros, r.reads st.position, get_u32-zeros 32 (omega arith))
      (ap (at_zero s st) (
        zero_tail_lem (length s.bytes) s st.position (length s.bytes - st.position) r.reads
          (omega arith) (omega arith) (omega (arith, r.fits, r.small))))

pub scan_loop-stop :
    (fuel : ℕ) (s : Source) (st st' : ScanState)
    → leb (u64 (st.position + record_header_size)) (length s.bytes) ≡ true
    → scan_record s st ≡ stop st'
    → scan_loop (suc fuel) s st ≡ finished st'
unfolding scan_loop
scan_loop-stop fuel s st st' more e = ground arith

pub scan_loop-done :
    (fuel : ℕ) (s : Source) (st : ScanState)
    → leb (u64 (st.position + record_header_size)) (length s.bytes) ≡ false
    → scan_loop fuel s st ≡ finished st
unfolding scan_loop
scan_loop-done zero s st less = rw less
scan_loop-done (suc fuel) s st less = rw less

pub check_tail-zeros :
    (s : Source) (st : ScanState) (pad : ℕ)
    → IsReadable s
    → st.position + pad ≡ length s.bytes
    → drop st.position s.bytes ≡ replicate pad 0
    → check_tail s st ≡ finished st
unfolding check_tail
check_tail-zeros s st pad r end bytes =
    rw (tail, all_zero-replicate pad) (ground (arith, r.reads st.position))
  where
    tail : pread s.bytes st.position (length s.bytes - st.position) ≡ replicate pad 0
    tail =
        ap (take (length s.bytes - st.position)) bytes
        ∙ take_all (length s.bytes - st.position) (replicate pad 0)
            (omega (arith, length-replicate {A = ℕ} pad 0))

pub check_tail-long :
    (s : Source) (st : ScanState)
    → IsReadable s
    → st.position + 32 ≤ length s.bytes
    → check_tail s st ≡ finished st
unfolding check_tail
check_tail-long s st r room = ground (arith, r.fits, r.small)
