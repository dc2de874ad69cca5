-- ===== src/Frame/Resync.antt =====
-- internal/frame/frame.go, ReadFrame: what it may return, and where its scan goes on.
use go_meshtastic_serial2tcp.Prelude.{
  ℕ, ◌<◌, ◌≤◌, ◌≡◌, ◌≢◌, ap, List, [], ◌∷◌, ◌++◌, length, All, drop, ◌==◌, inl, inr, Bool-cases,
  true, arith, take-append-drop, length-take,
}
use go_meshtastic_serial2tcp.Frame.{
  payload, Awaits, first, second, read_from, read_body, read_full, read_frame, magic0, magic1,
  encode, max_size, uint16,
}
use go_meshtastic_serial2tcp.Frame.RoundTrip.{read_frame_noise}

abbrev pub IsByte : ℕ → Type 0
IsByte b = b < 256

-- The bytes `bs` hold the frame of `p`, behind what was skipped and before `rest`.
abbrev pub Holds : List ℕ → List ℕ → List ℕ → Type 0
Holds bs p rest = (skipped : List ℕ) × (bs ≡ skipped ++ (encode p ++ rest))

read_full-eq-payload :
    (n : ℕ) (bs p rest : List ℕ)
    → read_full n bs ≡ payload p rest
    → (bs ≡ p ++ rest) × (length p ≡ n)
unfolding read_full
read_full-eq-payload n bs p rest h = ground (arith, take-append-drop n bs, length-take n bs)

read_body-eq-payload :
    (bs p rest : List ℕ)
    → All IsByte bs
    → read_body bs ≡ payload p rest
    → (bs ≡ drop 2 (encode p) ++ rest) × (0 < length p) × (length p ≤ max_size)
unfolding read_body
read_body-eq-payload [] p rest b h = cc
read_body-eq-payload (hi ∷ []) p rest b h = cc
read_body-eq-payload (hi ∷ lo ∷ bs) p rest b h =
    ground (arith, read_full-eq-payload (uint16 hi lo) bs p rest)

-- The same from within the loop: a reader that waits for the second magic byte has read the first.
abbrev seen : Awaits → List ℕ → List ℕ
seen first bs = bs
seen second bs = magic0 ∷ bs

Holds-cons : (b : ℕ) (bs p rest : List ℕ) → Holds bs p rest → Holds (b ∷ bs) p rest
Holds-cons b bs p rest (skipped, e) = (b ∷ skipped, ap (λ t. b ∷ t) e)

Holds-seen :
    (a : Awaits) (b : ℕ) (bs p rest : List ℕ) → Holds bs p rest → Holds (seen a (b ∷ bs)) p rest
Holds-seen first b bs p rest h = Holds-cons b bs p rest h
Holds-seen second b bs p rest h = Holds-cons magic0 _ p rest (Holds-cons b bs p rest h)

second_byte : (b : ℕ) → (b == magic1) ≡ true → b ≡ magic1
second_byte b h = ground arith

first_byte : (b : ℕ) → (b == magic0) ≡ true → b ≡ magic0
first_byte b h = ground arith

read_from-Holds :
    (a : Awaits) (bs p rest : List ℕ)
    → All IsByte bs
    → read_from a bs ≡ payload p rest
    → Holds (seen a bs) p rest × (0 < length p) × (length p ≤ max_size)
unfolding read_from
read_from-Holds first [] p rest b h = cc
read_from-Holds second [] p rest b h = cc
read_from-Holds first (x ∷ bs) p rest b h = elim (Bool-cases (x == magic0)) [
  | inl e ↦
      let r = read_from-Holds second bs p rest b.1 (ground arith) in
      (rw (first_byte x e) r.0, r.1, r.2)
  | inr e ↦
      let r = read_from-Holds first bs p rest b.1 (ground arith) in
      (Holds-cons x bs p rest r.0, r.1, r.2)
]
read_from-Holds second (x ∷ bs) p rest b h = elim (Bool-cases (x == magic1)) [
  | inl e ↦
      let r = read_body-eq-payload bs p rest b.1 (ground arith) in
      (([], rw (second_byte x e) (ap (λ t. magic0 ∷ magic1 ∷ t) r.0)), r.1, r.2)
  | inr e ↦
      let r = read_from-Holds first bs p rest b.1 (ground arith) in
      (Holds-seen second x bs p rest r.0, r.1, r.2)
]

-- Whatever bytes a stream holds: where `ReadFrame` returns a payload, its 1 to 65535 bytes stood in
-- the stream as one encoded frame, and what is left unread is exactly what followed that frame.
pub read_frame-Holds :
    (bs p rest : List ℕ)
    → All IsByte bs
    → read_frame bs ≡ payload p rest
    → Holds bs p rest × (0 < length p) × (length p ≤ max_size)
read_frame-Holds bs p rest b h = read_from-Holds first bs p rest b h

-- The scan starts anew behind the byte that it compared with the second magic byte. So a stray
-- first magic byte right before a frame hides that frame: unless the frame's length or payload
-- has a first magic byte, `ReadFrame` drops the whole frame and goes on with what follows it.
pub read_frame_stray :
    (p rest : List ℕ)
    → All (λ b. b ≢ magic0) (drop 2 (encode p))
    → read_frame (magic0 ∷ (encode p ++ rest)) ≡ read_frame rest
unfolding read_from
read_frame_stray p rest h = read_frame_noise (drop 2 (encode p)) rest h
