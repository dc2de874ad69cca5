-- ===== src/Server/Laws.antt =====
-- internal/server/server.go, Run: when it gives up, and what an accept error leaves.
use go_meshtastic_serial2tcp.Prelude.{
  ℕ, suc, ◌⊎◌, subst, ◌+◌, ◌≤◌, ◌<◌, ◌≡◌, refl, ap, ◌∙◌, sym, Bool, true, false, ◌&&◌, not, Option,
  none, some, List, [], ◌∷◌, length, All, if◌then◌else◌, ltb, leb, arith, Bool-cases, inl, inr,
}
use go_meshtastic_serial2tcp.Server.{
  Server, Attempt, wait_canceled, open_failed, session, BrokerErr, RoundEnd, goes_on, stopped,
  wait_failed, gave_up, min_runtime, max_rapid_fails, is_final, count_failure, after_err, step,
  then_run, run,
}

-- A round that counts as a rapid failure and is not cut short: the device could not be opened, or
-- the session failed within three seconds.
abbrev pub is_rapid : ℕ → Attempt → Bool
is_rapid delay wait_canceled = false
is_rapid delay (open_failed c) = not (ltb 0 delay && c)
is_rapid delay (session err runtime c) =
    not (is_final err) && (ltb runtime min_runtime && not (ltb 0 delay && c))

-- A session of three seconds or more that failed and is not cut short.
abbrev pub is_long : ℕ → Attempt → Bool
is_long delay (session err runtime c) =
    not (is_final err) && (not (ltb runtime min_runtime) && not (ltb 0 delay && c))
is_long delay _ = false

-- What is known of the count: `none` if Run has given up.
abbrev pub tally : RoundEnd → Option (Option ℕ)
tally (goes_on s) = some (some s.rapid_fail_count)
tally gave_up = some none
tally _ = none

abbrev pub count_of : ℕ → Option (Option ℕ)
count_of n = if leb max_rapid_fails n then some none else some (some n)

-- One rapid failure more.
abbrev OneMore : ℕ → RoundEnd → Type 0
OneMore n o =
    ((o ≡ gave_up) × (max_rapid_fails ≤ n + 1))
    ⊎ ((s : Server) × (o ≡ goes_on s) × (s.rapid_fail_count ≡ n + 1) × (n + 1 < max_rapid_fails))

count_failure-OneMore :
    (delay : ℕ) (c : Bool) (s : Server)
    → (ltb 0 delay && c) ≡ false
    → OneMore s.rapid_fail_count (count_failure delay c s)
unfolding count_failure
count_failure-OneMore delay c s h =
    elim (Bool-cases (leb max_rapid_fails (s.rapid_fail_count + 1))) [
      | inl e ↦ inl (rw e, ground arith)
      | inr e ↦
          inr
            (record s { rapid_fail_count = s.rapid_fail_count + 1 }, rw (e, h), refl, ground arith)
    ]

after_err-count :
    (e : BrokerErr) (s : Server) → (after_err e s).rapid_fail_count ≡ s.rapid_fail_count
after_err-count e s = ground arith

rapid-OneMore :
    (delay : ℕ) (s : Server) (a : Attempt)
    → is_rapid delay a ≡ true
    → OneMore s.rapid_fail_count (step delay s a)
unfolding step
rapid-OneMore delay s wait_canceled h = absurd (ground arith)
rapid-OneMore delay s (open_failed c) h = count_failure-OneMore delay c s (ground arith)
rapid-OneMore delay s (session err runtime c) h =
    let final : is_final err ≡ false = ground arith in
    let short : ltb runtime min_runtime ≡ true = ground arith in
    rw (final, short)
      (subst (λ n. OneMore n (count_failure delay c (after_err err s))) (after_err-count err s)
        (count_failure-OneMore delay c (after_err err s) (ground arith)))

run-rapid :
    (delay : ℕ) (later : List Attempt) (s : Server)
    → All (λ a. is_rapid delay a ≡ true) later
    → s.rapid_fail_count < max_rapid_fails
    → tally (run delay s later) ≡ count_of (s.rapid_fail_count + length later)
unfolding run
run-rapid delay [] s h k = ground arith
run-rapid delay (a ∷ later) s (h, hs) k = elim (rapid-OneMore delay s a h) [
  | inl (e, full) ↦ rw e (ground arith)
  | inr (s', e, count, room) ↦ rw e (ground (arith, run-rapid delay later s' hs))
]

-- After any session of three seconds or more that failed, and then nothing but rapid failures, Run
-- gives up exactly if those are five or more; with fewer it goes on, and has counted each of them.
-- Failures from before that session do not matter.
pub run-long-rapid :
    (delay : ℕ) (s : Server) (a : Attempt) (later : List Attempt)
    → is_long delay a ≡ true
    → All (λ a. is_rapid delay a ≡ true) later
    → tally (run delay s (a ∷ later)) ≡ count_of (length later)
unfolding run step
run-long-rapid delay s wait_canceled later h hs = absurd (ground arith)
run-long-rapid delay s (open_failed c) later h hs = absurd (ground arith)
run-long-rapid delay s (session err runtime c) later h hs =
    let final : is_final err ≡ false = ground arith in
    let long : ltb runtime min_runtime ≡ false = ground arith in
    let wakes : (ltb 0 delay && c) ≡ false = ground arith in
    rw (final, long, wakes)
      (run-rapid delay later (record (after_err err s) { rapid_fail_count = 0 }) hs (omega arith)
        ∙ ap count_of (zero_plus (length later)))
  where
    zero_plus : (n : ℕ) → 0 + n ≡ n
    zero_plus n = omega arith

-- Rounds that count as a failure, cut short or not.
abbrev pub is_failure : Attempt → Bool
is_failure wait_canceled = false
is_failure (open_failed c) = true
is_failure (session err runtime c) = not (is_final err) && ltb runtime min_runtime

abbrev pub failed_rounds : List Attempt → ℕ
failed_rounds [] = 0
failed_rounds (a ∷ later) = if is_failure a then suc (failed_rounds later) else failed_rounds later

step-gave_up :
    (delay : ℕ) (s : Server) (a : Attempt)
    → step delay s a ≡ gave_up
    → (is_failure a ≡ true) × (max_rapid_fails ≤ s.rapid_fail_count + 1)
unfolding step count_failure
step-gave_up delay s wait_canceled h = absurd cc
step-gave_up delay s (open_failed c) h = ground arith
step-gave_up delay s (session err runtime c) h = ground (arith, after_err-count err s)

step-goes_on :
    (delay : ℕ) (s s' : Server) (a : Attempt)
    → step delay s a ≡ goes_on s'
    → s'.rapid_fail_count ≤ (if is_failure a then suc s.rapid_fail_count else s.rapid_fail_count)
unfolding step count_failure
step-goes_on delay s s' wait_canceled h = absurd cc
step-goes_on delay s s' (open_failed c) h = ground arith
step-goes_on delay s s' (session err runtime c) h = ground (arith, after_err-count err s)

RoundEnd-cases :
    (o : RoundEnd) → ((s : Server) × (o ≡ goes_on s)) ⊎ ((f : Server → RoundEnd) → then_run o f ≡ o)
RoundEnd-cases (goes_on s) = inl (s, refl)
RoundEnd-cases stopped = inr (λ f. refl)
RoundEnd-cases wait_failed = inr (λ f. refl)
RoundEnd-cases gave_up = inr (λ f. refl)

-- Where Run gives up, at least as many rounds failed as are missing to five: five, from its start.
pub run-failed_rounds :
    (delay : ℕ) (later : List Attempt) (s : Server)
    → run delay s later ≡ gave_up
    → max_rapid_fails ≤ s.rapid_fail_count + failed_rounds later
unfolding run
run-failed_rounds delay [] s h = absurd cc
run-failed_rounds delay (a ∷ later) s h = elim (RoundEnd-cases (step delay s a)) [
  | inl (s', e) ↦
      ground (arith, run-failed_rounds delay later s' (rw e at h), step-goes_on delay s s' a e)
  | inr f ↦ ground (arith, step-gave_up delay s a (sym (f _) ∙ h))
]
