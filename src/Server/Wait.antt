-- ===== src/Server/Wait.antt =====
-- internal/server/server.go: waitForDevice and RunHealthcheck.
use go_meshtastic_serial2tcp.Prelude.{
  ℕ, ◌≡◌, refl, Bool, true, false, ◌||◌, List, [], ◌∷◌, if◌then◌else◌,
}

-- What the select takes: the end of the context, or a tick, at which the device may exist.
pub data Wakeup : Type 0 where
  context_done : Wakeup
  tick : (exists : Bool) → Wakeup

pub data WaitEnd : Type 0 where
  found context_error still_waiting : WaitEnd

abbrev pub wait_loop : List Wakeup → WaitEnd
wait_loop [] = still_waiting
wait_loop (context_done ∷ later) = context_error
wait_loop (tick true ∷ later) = found
wait_loop (tick false ∷ later) = wait_loop later

-- `exists` is whether the device exists at the start.
unfoldable pub wait_for_device : Bool → List Wakeup → WaitEnd
wait_for_device exists wakeups = if exists then found else wait_loop wakeups

-- RunHealthcheck: the exit code, by whether the connection succeeds
unfoldable pub run_healthcheck : (connects : Bool) → ℕ
run_healthcheck connects = if connects then 0 else 1

-- A tick at which the device exists, before the context ends.
abbrev pub appears : List Wakeup → Bool
appears [] = false
appears (context_done ∷ later) = false
appears (tick exists ∷ later) = exists || appears later

wait_loop-found : (wakeups : List Wakeup) → appears wakeups ≡ true → wait_loop wakeups ≡ found
wait_loop-found [] e = absurd cc
wait_loop-found (context_done ∷ later) e = absurd cc
wait_loop-found (tick true ∷ later) e = refl
wait_loop-found (tick false ∷ later) e = wait_loop-found later e

-- If the device exists at the start, or at a tick before the context ends, the wait ends well.
wait_for_device-found :
    (exists : Bool) (wakeups : List Wakeup)
    → (exists || appears wakeups) ≡ true
    → wait_for_device exists wakeups ≡ found
unfolding wait_for_device
wait_for_device-found true wakeups e = refl
wait_for_device-found false wakeups e = wait_loop-found wakeups e
