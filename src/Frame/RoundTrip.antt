-- ===== src/Frame/RoundTrip.antt =====
-- internal/frame/frame.go: what WriteFrame wrote, ReadFrame reads.
use go_meshtastic_serial2tcp.Prelude.{
  ℕ, ◌<◌, ◌≤◌, ◌+◌, ◌*◌, ◌/◌, ◌%◌, append-nil, ◌≡◌, ◌≢◌, refl, sym, ap, ◌∙◌, List, [], ◌∷◌, ◌++◌,
  length, length-append, take-append, drop-append, All, ◌==◌, ltb, ◌||◌, false, arith,
}
use go_meshtastic_serial2tcp.Frame.{
  payload, invalid, read_from, read_body, read_full, read_frame, magic0, encode, max_size, Writer,
  write_frame,
}
use go_meshtastic_serial2tcp.Frame.Write.{Progresses, write_frame-Progresses}

not_short : (n m : ℕ) → ltb (n + m) n ≡ false
not_short n m = ground arith

read_full-append : (p rest : List ℕ) → read_full (length p) (p ++ rest) ≡ payload p rest
unfolding read_full
read_full-append p rest = rw (
  length-append p rest,
  not_short (length p) (length rest),
  take-append p rest,
  drop-append p rest,
)

-- The two length bytes of a size up to 65535 read as that size.
uint16_parts : (n : ℕ) → n ≤ max_size → n % 65536 / 256 * 256 + n % 65536 % 256 ≡ n
uint16_parts n h = omega arith

in_range : (n : ℕ) → 0 < n → n ≤ max_size → ((n == 0) || ltb max_size n) ≡ false
in_range n h k = ground arith

read_body-encode :
    (p rest : List ℕ)
    → 0 < length p
    → length p ≤ max_size
    → read_body ((length p % 65536 / 256) ∷ (length p % 65536 % 256) ∷ (p ++ rest)) ≡ payload p rest
unfolding read_body
read_body-encode p rest h k =
    rw (uint16_parts (length p) k, in_range (length p) h k) (read_full-append p rest)

read_frame-encode :
    (p rest : List ℕ)
    → 0 < length p
    → length p ≤ max_size
    → read_frame (encode p ++ rest) ≡ payload p rest
unfolding read_from
read_frame-encode p rest h k = read_body-encode p rest h k

read_frame-cons_ne : (b : ℕ) (s : List ℕ) → b ≢ magic0 → read_frame (b ∷ s) ≡ read_frame s
unfolding read_from
read_frame-cons_ne b s h = ground arith

pub read_frame_noise :
    (noise s : List ℕ) → All (λ b. b ≢ magic0) noise → read_frame (noise ++ s) ≡ read_frame s
read_frame_noise [] s h = refl
read_frame_noise (b ∷ noise) s h =
    read_frame-cons_ne b (noise ++ s) h.0 ∙ read_frame_noise noise s h.1

-- Whatever bytes stand before a frame, as long as none of them is the first magic byte, `ReadFrame`
-- returns the frame's payload and leaves exactly what follows the frame. It holds for every payload
-- of 1 to 65535 bytes.
pub read_frame-noise-encode :
    (noise p rest : List ℕ)
    → All (λ b. b ≢ magic0) noise
    → 0 < length p
    → length p ≤ max_size
    → read_frame (noise ++ (encode p ++ rest)) ≡ payload p rest
read_frame-noise-encode noise p rest q h k =
    read_frame_noise noise (encode p ++ rest) q ∙ read_frame-encode p rest h k

-- An empty payload is written without an error, and the frame is read as `ErrInvalidFrame`, with
-- the scan left right behind its header.
pub read_frame-encode-nil : (rest : List ℕ) → read_frame (encode [] ++ rest) ≡ invalid rest
unfolding read_from read_body
read_frame-encode-nil rest = refl

-- A payload of 1 to 65535 bytes that `WriteFrame` sends through any writer whose calls take a byte
-- at least comes out of `ReadFrame` at the other end, with nothing left unread.
pub read_frame-write_frame :
    (w : Writer) (p : List ℕ)
    → w.sent ≡ []
    → 0 < length p
    → length p ≤ max_size
    → All Progresses w.script
    → read_frame (write_frame w p).0.sent ≡ payload p []
read_frame-write_frame w p e h k progress =
    ap read_frame (
      (write_frame-Progresses w p k progress).1
      ∙ ap (λ s. s ++ encode p) e
      ∙ sym (append-nil (encode p)))
    ∙ read_frame-encode p [] h k
