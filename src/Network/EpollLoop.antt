-- ===== src/Network/EpollLoop.antt =====
-- network/epoll_loop.h and epoll_loop.cpp: `EpollLoop::run`. What `epoll_wait` returns is a list of
-- answers; the loop is still running when they have run out.
use io_t_delivery_fleet_moni.Prelude.{ℕ, List, [], ◌∷◌, Bool, true, if◌then◌else◌, ◌≡◌, if-cases}

-- The event masks that the callback tests; an error and a hangup are tested together.
pub record Events : Type 0 where
  pub error_or_hangup : Bool
  pub readable : Bool
  pub peer_hangup : Bool
  pub writable : Bool

pub data Wait : Type 0 where
  ready : List (ℕ × Events) → Wait
  wait_interrupted wait_failed : Wait

pub data Outcome : Type 0 where
  returned_true returned_false still_running : Outcome

module _ {ℓ} {S : Type ℓ} (callback : ℕ → Events → S → S) (on_iteration : S → S)
    (should_stop : S → Bool) where
  unfoldable pub call_back : List (ℕ × Events) → S → S
  call_back [] s = s
  call_back (e ∷ events) s = call_back events (callback e.0 e.1 s)

  unfoldable pub run : List Wait → S → Outcome × S
  run [] s = if should_stop s then (returned_true, s) else (still_running, s)
  run (wait_interrupted ∷ waits) s =
      let later = run waits s in if should_stop s then (returned_true, s) else later
  run (wait_failed ∷ waits) s = if should_stop s then (returned_true, s) else (returned_false, s)
  run (ready events ∷ waits) s =
      let s' = on_iteration (call_back events s) in
      let later = run waits s' in
      if should_stop s
      then (returned_true, s)
      else if should_stop s'
      then (returned_true, s')
      else later

module _ {ℓ} {S : Type ℓ} (callback : ℕ → Events → S → S) (on_iteration : S → S)
    (should_stop : S → Bool) where
  -- The loop returns true exactly in a state in which it should stop.
  pub run-stops :
      (waits : List Wait) (s : S)
      → (run callback on_iteration should_stop waits s).0 ≡ returned_true
      → should_stop (run callback on_iteration should_stop waits s).1 ≡ true
  unfolding run
  run-stops waits s = stopped waits s
    where
      Stopped : Outcome × S → Type 0
      Stopped r = r.0 ≡ returned_true → should_stop r.1 ≡ true

      stopped :
          (waits : List Wait) (s : S) → Stopped (run callback on_iteration should_stop waits s)
      stopped [] s = if-cases Stopped (should_stop s) (λ e _. e) λ _ no. cc
      stopped (wait_interrupted ∷ waits) s =
          if-cases Stopped (should_stop s) (λ e _. e) λ _. stopped waits s
      stopped (wait_failed ∷ waits) s = if-cases Stopped (should_stop s) (λ e _. e) λ _ no. cc
      stopped (ready events ∷ waits) s =
          let s' = on_iteration (call_back callback on_iteration should_stop events s) in
          if-cases Stopped (should_stop s) (λ e _. e)
            λ _. if-cases Stopped (should_stop s') (λ e _. e) λ _. stopped waits s'
