-- ===== src/Webui/Hub/Laws.antt =====
-- internal/webui/hub.go, Record: what the hub keeps, and what a subscriber gets.
use go_meshtastic_serial2tcp.Prelude.{
  ℕ, zero, suc, ◌+◌, ◌≤◌, ◌<◌, ◌≡◌, refl, sym, ap, ◌∙◌, subst, some, some_inj, List, [], ◌∷◌, ◌++◌,
  append-nil, append_assoc, length, length-append, take, ◌==◌, arith, Bool-cases, inl, inr,
}
use go_meshtastic_serial2tcp.Prelude.Keys.{nat_key}
use go_meshtastic_serial2tcp.Prelude.Assoc.{Assoc, get}
use go_meshtastic_serial2tcp.Webui.Hub.{
  Hub, Event, Chan, max_events, complete_event, record_event, offer_to, offer_all,
}

-- Record, once for each event.
abbrev pub record_all : ℕ → Hub → List Event → Hub
record_all now h [] = h
record_all now h (ev ∷ evs) = record_all now (record_event now h ev) evs

-- The events as they are stored, oldest first.
abbrev pub completed : ℕ → Hub → List Event → List Event
completed now h [] = []
completed now h (ev ∷ evs) = complete_event now h ev ∷ completed now h evs

-- Each event in front of those before it.
abbrev pub newest_first : List Event → List Event → List Event
newest_first [] acc = acc
newest_first (ev ∷ evs) acc = newest_first evs (ev ∷ acc)

take-cons-take :
    {A : Type 0} (n : ℕ) (x : A) (xs : List A) → take n (x ∷ take n xs) ≡ take n (x ∷ xs)
take-cons-take zero x xs = refl
take-cons-take (suc n) x [] = refl
take-cons-take (suc zero) x (y ∷ ys) = refl
take-cons-take (suc (suc n)) x (y ∷ ys) = ap (λ t. x ∷ t) (take-cons-take (suc n) y ys)

take-newest_first-take :
    (n : ℕ) (evs acc : List Event)
    → take n (newest_first evs (take n acc)) ≡ take n (newest_first evs acc)
take-newest_first-take n [] acc = take-take n acc
  where
    take-take : {A : Type 0} (n : ℕ) (xs : List A) → take n (take n xs) ≡ take n xs
    take-take zero xs = refl
    take-take (suc n) [] = refl
    take-take (suc n) (x ∷ xs) = ap (λ t. x ∷ t) (take-take n xs)
take-newest_first-take n (ev ∷ evs) acc =
    sym (take-newest_first-take n evs (ev ∷ take n acc))
    ∙ ap (λ t. take n (newest_first evs t)) (take-cons-take n ev acc)
    ∙ take-newest_first-take n evs (ev ∷ acc)

-- What is stored does not depend on the events before it.
complete-record_event :
    (now : ℕ) (h : Hub) (ev : Event) (evs : List Event)
    → completed now (record_event now h ev) evs ≡ completed now h evs
unfolding complete_event record_event
complete-record_event now h ev [] = refl
complete-record_event now h ev (e ∷ evs) =
    ap (λ t. complete_event now h e ∷ t) (complete-record_event now h ev evs)

take_all : {A : Type 0} (n : ℕ) (xs : List A) → length xs ≤ n → take n xs ≡ xs
take_all zero [] h = refl
take_all zero (x ∷ xs) h = absurd (omega arith)
take_all (suc n) [] h = refl
take_all (suc n) (x ∷ xs) h = ap (λ t. x ∷ t) (take_all n xs (omega arith))

length-take-le : {A : Type 0} (n : ℕ) (xs : List A) → length (take n xs) ≤ n
length-take-le zero xs = omega arith
length-take-le (suc n) [] = omega arith
length-take-le (suc n) (x ∷ xs) = omega (arith, length-take-le n xs)

record_event-events :
    (now : ℕ) (h : Hub) (ev : Event)
    → (record_event now h ev).events ≡ take max_events (complete_event now h ev ∷ h.events)
unfolding record_event
record_event-events now h ev = refl

-- Whatever events are recorded on a hub that has at most 1000: the hub has the newest 1000 of them
-- and of those that it had, in their order, each with the time and the channel name that Record
-- fills in.
pub record_all-events :
    (now : ℕ) (evs : List Event) (h : Hub)
    → length h.events ≤ max_events
    → (record_all now h evs).events ≡ take max_events (newest_first (completed now h evs) h.events)
record_all-events now [] h k = sym (take_all max_events h.events k)
record_all-events now (ev ∷ evs) h k =
    record_all-events now evs (record_event now h ev) (bounded now h ev)
    ∙ ap (λ t. take max_events (newest_first t (record_event now h ev).events))
        (complete-record_event now h ev evs)
    ∙ ap (λ t. take max_events (newest_first (completed now h evs) t))
        (record_event-events now h ev)
    ∙ take-newest_first-take max_events (completed now h evs) (complete_event now h ev ∷ h.events)
  where
    bounded : (now : ℕ) (h : Hub) (ev : Event) → length (record_event now h ev).events ≤ max_events
    bounded now h ev =
        subst (λ t. length t ≤ max_events) (sym (record_event-events now h ev))
          (length-take-le max_events (complete_event now h ev ∷ h.events))

pub get-offer_all :
    (x : Event) (subs : Assoc ℕ (Chan Event)) (id : ℕ) (c : Chan Event)
    → get subs id ≡ some c
    → get (offer_all x subs) id ≡ some (offer_to x c)
unfolding get
get-offer_all x [] id c h = absurd cc
get-offer_all x ((j, d) ∷ subs) id c h = elim (Bool-cases (j == id)) [
  | inl e ↦ rw e (ap (λ t. some (offer_to x t)) (some_inj (rw e at h)))
  | inr e ↦ rw e (get-offer_all x subs id c (rw e at h))
]

abbrev filled : Chan Event → List Event → Chan Event
filled c xs = record c { buffer = c.buffer ++ xs }

room :
    (x : Event) (c : Chan Event) → length c.buffer < c.capacity → offer_to x c ≡ filled c (x ∷ [])
room x c h = ground arith

-- A subscriber whose channel has room for all of them gets every event, once, in the order in which
-- they are recorded.
pub record_all-subscribers :
    (now : ℕ) (evs : List Event) (h : Hub) (id : ℕ) (c : Chan Event)
    → get h.subscribers id ≡ some c
    → length c.buffer + length evs ≤ c.capacity
    → get (record_all now h evs).subscribers id
      ≡ some (record c { buffer = c.buffer ++ completed now h evs })
unfolding record_event
record_all-subscribers now [] h id c e k =
    e ∙ ap (λ t. some (record c { buffer = t })) (sym (append-nil c.buffer))
record_all-subscribers now (ev ∷ evs) h id c e k =
    let x = complete_event now h ev in
    record_all-subscribers now evs (record_event now h ev) id (filled c (x ∷ []))
      (get-offer_all x h.subscribers id c e ∙ ap some (room x c (omega arith)))
      (omega (arith, length-append c.buffer (x ∷ [])))
    ∙ ap (λ t. some (record c { buffer = t }))
        (append_assoc c.buffer (x ∷ []) _
          ∙ ap (λ t. c.buffer ++ (x ∷ t)) (complete-record_event now h ev evs))
