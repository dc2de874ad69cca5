-- ===== src/Server/Tests.antt =====
-- internal/server/server.go, Run: a few courses of the loop.
use go_meshtastic_serial2tcp.Prelude.{◌≡◌, refl, true, false, List, [], ◌∷◌, length}
use go_meshtastic_serial2tcp.Server.{
  Server, Attempt, open_failed, session, serial_closed, canceled, stopped, run, step, start,
}
use go_meshtastic_serial2tcp.Server.Laws.{tally, count_of, run-long-rapid}

-- The device vanishes after an hour, and comes back with five short sessions or failures to open
-- it.
abbrev hour : Attempt
hour = session serial_closed 3600000000000 false

abbrev troubled : List Attempt
troubled =
    open_failed false
    ∷ session serial_closed 5 false
    ∷ open_failed false
    ∷ session serial_closed 2999999999 false
    ∷ open_failed true
    ∷ []

run-stopped : run 1 start (hour ∷ session canceled 5 false ∷ open_failed false ∷ []) ≡ stopped
unfolding run step
run-stopped = refl

run-long-rapid_example : tally (run 0 start (hour ∷ troubled)) ≡ count_of (length troubled)
run-long-rapid_example =
    run-long-rapid 0 start hour troubled refl (refl, (refl, (refl, (refl, (refl, tt)))))

abbrev deaf : Server
deaf = record { rapid_fail_count = 1; accepting = false }
