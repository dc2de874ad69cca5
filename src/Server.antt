-- ===== src/Server.antt =====
-- internal/server/server.go, Run: the loop that opens the serial device, serves a broker on it, and
-- starts anew when the device goes away. What a round of the loop meets is an `Attempt`.
pub mod Laws
pub mod Accept
pub mod Wait
mod Tests
use go_meshtastic_serial2tcp.Prelude.{
  ℕ, ◌+◌, ◌*◌, Bool, true, false, ◌&&◌, List, [], ◌∷◌, if◌then◌else◌, ltb, leb,
}

-- 3 seconds, in nanoseconds
abbrev pub min_runtime : ℕ
min_runtime = 3 * 1000000000

abbrev pub max_rapid_fails : ℕ
max_rapid_fails = 5

-- brokerErr: why a session ended.
pub data BrokerErr : Type 0 where
  no_error canceled serial_closed accept_failed other_error : BrokerErr

-- `sleep_canceled`: the context ends during the sleep before the next round, if there is one.
pub data Attempt : Type 0 where
  wait_canceled : Attempt
  open_failed : (sleep_canceled : Bool) → Attempt
  session : (err : BrokerErr) (runtime : ℕ) (sleep_canceled : Bool) → Attempt

-- `accepting`: the goroutine that accepts connections runs. It returns at its first error.
pub record Server : Type 0 where
  pub rapid_fail_count : ℕ
  pub accepting : Bool

abbrev pub start : Server
start = record { rapid_fail_count = 0; accepting = true }

-- How a round ends: the next one begins, or Run returns nil, the context's error from
-- waitForDevice, or the error of too many rapid failures.
pub data RoundEnd : Type 0 where
  goes_on : Server → RoundEnd
  stopped wait_failed gave_up : RoundEnd

-- The end of a round: the sleep, if ReconnectDelay is positive.
abbrev pub pause : ℕ → Bool → Server → RoundEnd
pause delay sleep_canceled s = if ltb 0 delay && sleep_canceled then stopped else goes_on s

-- rapidFailCount++, and what follows it
pub count_failure : ℕ → Bool → Server → RoundEnd
count_failure delay sleep_canceled s =
    let n = s.rapid_fail_count + 1 in
    if leb max_rapid_fails n
    then gave_up
    else pause delay sleep_canceled (record s { rapid_fail_count = n })

abbrev pub is_final : BrokerErr → Bool
is_final no_error = true
is_final canceled = true
is_final _ = false

-- An error of the accepting goroutine has ended that goroutine.
abbrev pub after_err : BrokerErr → Server → Server
after_err accept_failed s = record s { accepting = false }
after_err _ s = s

pub step : ℕ → Server → Attempt → RoundEnd
unfolding count_failure
step delay s wait_canceled = wait_failed
step delay s (open_failed sleep_canceled) = count_failure delay sleep_canceled s
step delay s (session err runtime sleep_canceled) =
    if is_final err
    then stopped
    else if ltb runtime min_runtime
    then count_failure delay sleep_canceled (after_err err s)
    else pause delay sleep_canceled (record (after_err err s) { rapid_fail_count = 0 })

abbrev pub then_run : RoundEnd → (Server → RoundEnd) → RoundEnd
then_run (goes_on s) f = f s
then_run o f = o

pub run : ℕ → Server → List Attempt → RoundEnd
run delay s [] = goes_on s
run delay s (a ∷ later) = then_run (step delay s a) (λ s'. run delay s' later)
