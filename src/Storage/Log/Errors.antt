-- ===== src/Storage/Log/Errors.antt =====
-- What the operations of the log leave behind when they throw.
use io_t_delivery_fleet_moni.Prelude.{ℕ, ◌+◌, ◌≡◌, refl, List, Bool, true, false, if◌then◌else◌}
use io_t_delivery_fleet_moni.Storage.Format.{Error, ok, err}
use io_t_delivery_fleet_moni.Storage.Log.{
  MemoryMappedLog, LogCalls, Ran, try_then, closed, unmap_active, create_segment, roll_over,
  write_record, append,
}

-- A call that throws has left the log as it was, or closed it.
pub data IsSafe {ℓ} {A : Type ℓ} (log : MemoryMappedLog) : Ran A → Type ℓ where
  returned : (a : A) (log' : MemoryMappedLog) → IsSafe log (ok a, log')
  unchanged : (e : Error) → IsSafe log (err e, log)
  shut : (e : Error) (log' : MemoryMappedLog) → log'.opened ≡ false → IsSafe log (err e, log')

if-IsSafe {ℓ} :
    {A : Type ℓ} (log : MemoryMappedLog) (b : Bool) (x y : Ran A)
    → IsSafe log x
    → IsSafe log y
    → IsSafe log (if b then x else y)
if-IsSafe log true x y hx hy = hx
if-IsSafe log false x y hx hy = hy

-- A handler that closes the log makes a failing call safe.
closing-IsSafe {ℓ κ} :
    {A : Type ℓ} {B : Type κ} (log : MemoryMappedLog) (r : Ran A) (go : MemoryMappedLog → Ran B)
    → ((log' : MemoryMappedLog) → IsSafe log (go log'))
    → IsSafe log (try_then r closed go)
closing-IsSafe log (err e, log') go h = shut _ _ refl
closing-IsSafe log (ok a, log') go h = h log'

roll_over-IsSafe : (calls : LogCalls) (log : MemoryMappedLog) → IsSafe log (roll_over calls log)
unfolding roll_over
roll_over-IsSafe calls log = closing-IsSafe log (unmap_active calls true log) _ λ log'.
    closing-IsSafe log
      (create_segment calls (log.active.segment_id + 1) log.next_message_offset log') _
      λ _. returned _ _

keeping-IsSafe {ℓ} :
    {A : Type ℓ} (log : MemoryMappedLog) (r : Ran A) (payload : List ℕ) (now : ℕ)
    → IsSafe log r
    → IsSafe log (try_then r (λ log'. log') (write_record payload now))
unfolding write_record
keeping-IsSafe log (err e, log') payload now (unchanged _) = unchanged e
keeping-IsSafe log (err e, log') payload now (shut _ _ h) = shut e log' h
keeping-IsSafe log (ok a, log') payload now h = returned _ _

-- On every log and payload, whichever system calls fail: an `append` that throws has either changed
-- nothing of the log, or closed it.
pub append-IsSafe :
    (calls : LogCalls) (now : ℕ) (payload : List ℕ) (log : MemoryMappedLog)
    → IsSafe log (append calls now payload log)
unfolding append write_record
append-IsSafe calls now payload log =
    search (if-IsSafe, IsSafe.unchanged, IsSafe.returned, keeping-IsSafe, roll_over-IsSafe) depth 12
