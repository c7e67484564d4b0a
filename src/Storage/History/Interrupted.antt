-- ===== src/Storage/History/Interrupted.antt =====
-- `open` on the directory that a crash in the middle of `append` has left.
use io_t_delivery_fleet_moni.Prelude.{
  if-cases, leb, leb→le, zero, suc, [], ◌∷◌, refl, ap, take_all, if◌then◌else◌, ℕ, ◌+◌, ◌-◌, ◌^◌,
  ◌≤◌, ◌<◌, true, ◌≡◌, ap₂, sym, subst, ◌∙◌, List, ◌++◌, false, length, replicate, arith,
  length-append, take, length-take, length-replicate,
}
use io_t_delivery_fleet_moni.Storage.Codec.{segment_header_size}
use io_t_delivery_fleet_moni.Storage.Format.{ok, record_header}
use io_t_delivery_fleet_moni.Storage.Scan.Records.{Entry, total, record_size}
use io_t_delivery_fleet_moni.Storage.Directory.{Directory}
use io_t_delivery_fleet_moni.Storage.Log.{
  Mapping, MemoryMappedLog, LogCalls, Copy, payload_copy, header_copy, store_payload, run_copies,
  run_copy, append_copies, Ran, write_record, append,
}
use io_t_delivery_fleet_moni.Storage.Open.{OpenCalls, open_log}
use io_t_delivery_fleet_moni.Storage.History.{History, size_of, Represents}
use io_t_delivery_fleet_moni.Storage.History.Append.{store_payload_lem, pad}
use io_t_delivery_fleet_moni.Storage.History.Grow.{append_in_place}
use io_t_delivery_fleet_moni.Storage.History.Reopen.{CanOpen}
use io_t_delivery_fleet_moni.Storage.History.AfterCrash.{open_log-torn}

-- What a crash behind the first `k` bytes has run of a sequence of copies: the copies that are whole
-- within `k` bytes, and the start of the next one.
copy_size : Copy → ℕ
copy_size (payload_copy payload) = length payload
copy_size (header_copy header) = length header

cut_copy : ℕ → Copy → Copy
cut_copy k (payload_copy payload) = payload_copy (take k payload)
cut_copy k (header_copy header) = header_copy (take k header)

pub interrupted : ℕ → List Copy → List Copy
unfolding copy_size cut_copy
interrupted zero copies = []
interrupted (suc k) [] = []
interrupted (suc k) (c ∷ copies) =
    let rest = interrupted (suc k - copy_size c) copies in
    if leb (copy_size c) (suc k) then c ∷ rest else cut_copy (suc k) c ∷ []

-- A crash before the header is copied leaves the stores of a part of the payload.
interrupted-append :
    (k offset now : ℕ) (payload : List ℕ) (active : Mapping) (dir : Directory)
    → k ≤ length payload
    → run_copies active (interrupted k (append_copies offset now payload)) dir
      ≡ store_payload (take k payload) active dir
unfolding interrupted run_copies run_copy append_copies store_payload
interrupted-append zero offset now payload active dir h = refl
interrupted-append (suc k) offset now payload active dir h =
    if-cases
      (λ copies. run_copies active copies dir ≡ store_payload (take (suc k) payload) active dir)
      (leb (length payload) (suc k))
      (λ whole.
        ap
          (λ r.
            run_copies active
              (payload_copy payload
                ∷ interrupted r (header_copy (record_header offset now payload) ∷ []))
              dir)
          (none_left whole)
        ∙ ap (λ p. store_payload p active dir)
            (sym (take_all (suc k) payload (leb→le (length payload) (suc k) whole))))
      λ part. refl
  where
    none_left : leb (length payload) (suc k) ≡ true → suc k - length payload ≡ 0
    none_left whole = ground (arith, h, whole)

append-copies :
    (c : ℕ) (front : History) (last : List Entry) (log : MemoryMappedLog) (calls : LogCalls)
    (e : Entry)
    → Represents c front last log
    → length e.payload < 2 ^ 32
    → size_of front + total last + record_size e < 2 ^ 64
    → segment_header_size + total last + record_size e ≤ log.segment_size
    → (append calls e.timestamp e.payload log).1.directory
      ≡ run_copies log.active
          (append_copies log.next_message_offset e.timestamp e.payload)
          log.directory
unfolding write_record
append-copies c front last log calls e v short offset_room room =
    ap (λ (r : Ran ℕ). r.1.directory)
      (append_in_place c front last log calls e v short offset_room room)

-- The next `open` behind a part of the payload.
open_log-after_part :
    (c cap : ℕ) (front : History) (last : List Entry) (log other : MemoryMappedLog)
    (calls : OpenCalls) (payload : List ℕ) (k : ℕ)
    → Represents c front last log
    → CanOpen calls
    → other.opened ≡ false
    → 0 < cap
    → cap ≤ 2 ^ 63
    → segment_header_size + total last + 32 + length payload ≤ log.segment_size
    → let out =
        open_log calls
          (store_payload (take k payload) log.active log.directory)
          log.segment_size
          cap
          other in
      (out.0 ≡ ok tt) × Represents cap front last out.1
open_log-after_part c cap front last log other calls payload k v can shut some_room cap_small room =
    subst
      (λ d.
        let out = open_log calls d log.segment_size cap other in
        (out.0 ≡ ok tt) × Represents cap front last out.1)
      (sym (
        ap₂ (store_payload (take k payload)) v.active v.directory
        ∙ store_payload_lem log.segment_size front last cut v.count v.small fits))
      (open_log-torn c cap front last log other calls v can shut some_room cap_small
        (take k payload ++ replicate (pad log.segment_size front last cut - record_size cut) 0)
        full)
  where
    cut : Entry
    cut = record { timestamp = 0; payload = take k payload }

    fits : segment_header_size + total last + record_size cut ≤ log.segment_size
    fits = omega (arith, room, length-take k payload)

    full :
        segment_header_size
          + total last
          + 32
          + length (
              take k payload ++ replicate (pad log.segment_size front last cut - record_size cut) 0)
        ≡ log.segment_size
    full = omega (
      arith,
      fits,
      length-append (take k payload)
          (replicate (pad log.segment_size front last cut - record_size cut) 0),
      length-replicate {A = ℕ} (pad log.segment_size front last cut - record_size cut) 0,
    )

-- A crash inside `append` on the active segment, behind any number of bytes that is at most the
-- length of the payload, so before a byte of the header is copied: the next `open` succeeds,
-- whatever the order in which it lists the directory, and the log represents the history without
-- that entry, with no earlier message lost. The copies that the crash interrupts are those by which
-- the whole `append` makes its directory. The conditions: the payload and the new offset fit their
-- fields, the record fits the active segment, the stores reach the file in the order of the copies,
-- the system calls of `open` succeed, the segment size is the same, and the capacity of the cache is
-- positive and at most 2 ^ 63.
pub open_log-after_crash :
    (c cap : ℕ) (front : History) (last : List Entry) (log other : MemoryMappedLog)
    (append_calls : LogCalls) (calls : OpenCalls) (e : Entry) (k : ℕ)
    → Represents c front last log
    → length e.payload < 2 ^ 32
    → size_of front + total last + record_size e < 2 ^ 64
    → segment_header_size + total last + record_size e ≤ log.segment_size
    → k ≤ length e.payload
    → CanOpen calls
    → other.opened ≡ false
    → 0 < cap
    → cap ≤ 2 ^ 63
    → let copies = append_copies log.next_message_offset e.timestamp e.payload in
      let left = run_copies log.active (interrupted k copies) log.directory in
      let out = open_log calls left log.segment_size cap other in
      ((append append_calls e.timestamp e.payload log).1.directory
        ≡ run_copies log.active copies log.directory)
      × ((out.0 ≡ ok tt) × Represents cap front last out.1)
open_log-after_crash c cap front last log other append_calls calls e k v short offset_room room part
      can shut some_room cap_small =
    (
      append-copies c front last log append_calls e v short offset_room room,
      subst
          (λ d.
            let out = open_log calls d log.segment_size cap other in
            (out.0 ≡ ok tt) × Represents cap front last out.1)
          (sym (
            interrupted-append k log.next_message_offset e.timestamp e.payload log.active
              log.directory part))
          (open_log-after_part c cap front last log other calls e.payload k v can shut some_room
            cap_small (omega (arith, room))),
    )
