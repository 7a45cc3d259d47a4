-- ===== src/Program/Wait.antt =====
-- The loop of src/main.c that waits for a signal, and its handler.
use loop_charger_inverter.Prelude.{
  ℕ, zero, suc, ◌≡◌, refl, ap, Bool, true, false, List, [], ◌∷◌, ◌++◌, replicate, arith,
  if◌then◌else◌,
}

-- Where `main` is: before the test of `g_running`, between the test and the wait of `pause`, in that
-- wait, or behind the loop.
pub data Point : Type 0 where
  at_test : Point
  before_pause : Point
  in_pause : Point
  left : Point

pub record Waiter : Type 0 where
  pub point : Point
  pub g_running : Bool

-- `main` goes on, or SIGINT or SIGTERM comes and `signal_handler` runs.
pub data WaitStep : Type 0 where
  go_on : WaitStep
  signal : WaitStep

-- Where `main` comes from a point; `pause` ends only with a signal.
unfoldable pub next_point : Bool → Point → Point
next_point g_running at_test = if g_running then before_pause else left
next_point g_running before_pause = in_pause
next_point g_running in_pause = in_pause
next_point g_running left = left

-- The handler's return ends `pause`.
abbrev pub woken : Point → Point
woken at_test = at_test
woken before_pause = before_pause
woken in_pause = at_test
woken left = left

unfoldable pub signal_handler : Waiter → Waiter
signal_handler m = record { point = woken m.point; g_running = false }

unfoldable pub wait_step : WaitStep → Waiter → Waiter
unfolding next_point signal_handler
wait_step go_on m = record m { point = next_point m.g_running m.point }
wait_step signal m = signal_handler m

unfoldable pub wait_run : List WaitStep → Waiter → Waiter
wait_run [] m = m
wait_run (s ∷ steps) m = wait_run steps (wait_step s m)

wait_run-append :
    (xs ys : List WaitStep) (m : Waiter) → wait_run (xs ++ ys) m ≡ wait_run ys (wait_run xs m)
unfolding wait_run
wait_run-append [] ys m = refl
wait_run-append (s ∷ xs) ys m = wait_run-append xs ys (wait_step s m)

abbrev going_to_pause : Point → Bool
going_to_pause before_pause = true
going_to_pause _ = false

-- A signal has come, and `main` is not on its way into `pause`.
abbrev IsTold : Waiter → Type 0
IsTold m = (m.g_running ≡ false) × (going_to_pause m.point ≡ false)

told : (m : Waiter) → IsTold (wait_step go_on (wait_step signal m))
unfolding wait_step next_point signal_handler
told m = (refl, far m.point)
  where
    far : (p : Point) → going_to_pause (next_point false (woken p)) ≡ false
    far at_test = refl
    far before_pause = refl
    far in_pause = refl
    far left = refl

next-told : (p : Point) → going_to_pause p ≡ false → going_to_pause (next_point false p) ≡ false
unfolding next_point
next-told at_test h = refl
next-told before_pause h = refl
next-told in_pause h = refl
next-told left h = refl

woken-told : (p : Point) → going_to_pause p ≡ false → going_to_pause (woken p) ≡ false
woken-told at_test h = refl
woken-told before_pause h = h
woken-told in_pause h = refl
woken-told left h = refl

wait_step-IsTold : (s : WaitStep) (m : Waiter) → IsTold m → IsTold (wait_step s m)
unfolding wait_step signal_handler
wait_step-IsTold go_on m h = rw (h.0) (refl, next-told m.point h.1)
wait_step-IsTold signal m h = (refl, woken-told m.point h.1)

wait_run-IsTold : (steps : List WaitStep) (m : Waiter) → IsTold m → IsTold (wait_run steps m)
unfolding wait_run
wait_run-IsTold [] m h = h
wait_run-IsTold (s ∷ steps) m h = wait_run-IsTold steps (wait_step s m) (wait_step-IsTold s m h)

told-leaves : (m : Waiter) → IsTold m → (wait_step go_on (wait_step signal m)).point ≡ left
unfolding wait_step next_point signal_handler
told-leaves m h = leaves m.point h.1
  where
    leaves : (p : Point) → going_to_pause p ≡ false → next_point false (woken p) ≡ left
    leaves at_test e = refl
    leaves before_pause e = ground arith
    leaves in_pause e = refl
    leaves left e = refl

-- Behind the loop `main` stays behind it.
stays_out : (steps : List WaitStep) (m : Waiter) → m.point ≡ left → (wait_run steps m).point ≡ left
unfolding wait_run wait_step next_point signal_handler
stays_out [] m e = e
stays_out (go_on ∷ steps) m e = stays_out steps _ (ap (next_point m.g_running) e)
stays_out (signal ∷ steps) m e = stays_out steps _ (ap woken e)

-- Whatever `main` and the signals do before and in between: when a signal comes and `main` goes on, and
-- then once more a signal comes and it goes on, it has left the loop, and whatever goes on or comes
-- afterwards, it is not in the loop again.
pub wait_run_ends :
    (before between after : List WaitStep) (m : Waiter)
    → (wait_run (before ++ (signal ∷ go_on ∷ (between ++ (signal ∷ go_on ∷ after)))) m).point ≡ left
unfolding wait_run
wait_run_ends before between after m =
    let first = wait_run before m in
    let m1 = wait_step go_on (wait_step signal first) in
    rw
      (
        wait_run-append before (signal ∷ go_on ∷ (between ++ (signal ∷ go_on ∷ after))) m,
        wait_run-append between (signal ∷ go_on ∷ after) m1,
      )
      (stays_out after _
        (told-leaves (wait_run between m1) (wait_run-IsTold between m1 (told first))))

paused :
    (n : ℕ) (m : Waiter) → m.point ≡ in_pause → (wait_run (replicate n go_on) m).point ≡ in_pause
unfolding wait_run wait_step next_point
paused zero m e = e
paused (suc n) m e = paused n (wait_step go_on m) (ap (next_point m.g_running) e)

-- A signal that comes between the test of `g_running` and the wait of `pause` does not end the loop,
-- whatever came before: however often `main` could go on afterwards, it stays in `pause`.
pub wait_run_lost :
    (before : List WaitStep) (n : ℕ) (m : Waiter)
    → (wait_run before m).point ≡ before_pause
    → (wait_run (before ++ (signal ∷ go_on ∷ replicate n go_on)) m).point ≡ in_pause
unfolding wait_run wait_step next_point signal_handler
wait_run_lost before n m e = rw (wait_run-append before (signal ∷ go_on ∷ replicate n go_on) m) (
    paused n (wait_step go_on (wait_step signal (wait_run before m)))
      (ap (λ p. next_point false (woken p)) e))
