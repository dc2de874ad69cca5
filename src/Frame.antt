-- ===== src/Frame.antt =====
-- internal/frame/frame.go: frames of the serial and TCP streams, a magic pair, a 16-bit length,
-- and the payload. A byte is a number below 256; a stream is the list of its unread bytes.
pub mod Write
pub mod RoundTrip
pub mod Resync
mod Tests
use go_meshtastic_serial2tcp.Prelude.{
  ℕ, ◌+◌, ◌*◌, ◌-◌, ◌/◌, ◌%◌, ◌||◌, Option, none, some, List, [], ◌∷◌, ◌++◌, length, take, drop,
  ltb, ◌==◌, if◌then◌else◌,
}

abbrev pub magic0 : ℕ
magic0 = 0x94

abbrev pub magic1 : ℕ
magic1 = 0xC3

abbrev pub max_size : ℕ
max_size = 64 * 1024 - 1

-- The result of one call of `ReadFrame`, with the bytes that it left unread: a payload,
-- `ErrInvalidFrame`, or the reader's own error (the stream ended).
pub data ReadResult : Type 0 where
  payload : List ℕ → List ℕ → ReadResult
  invalid : List ℕ → ReadResult
  read_error : ReadResult

-- `io.ReadFull` of `n` bytes
read_full : ℕ → List ℕ → ReadResult
read_full n bs = if ltb (length bs) n then read_error else payload (take n bs) (drop n bs)

-- `binary.BigEndian.Uint16` of two bytes
abbrev pub uint16 : ℕ → ℕ → ℕ
uint16 hi lo = hi * 256 + lo

-- From the length field on.
read_body : List ℕ → ReadResult
unfolding read_full
read_body (hi ∷ lo ∷ bs) =
    let n = uint16 hi lo in if n == 0 || ltb max_size n then invalid bs else read_full n bs
read_body _ = read_error

-- Where the loop of `ReadFrame` waits for a byte.
pub data Awaits : Type 0 where
  first second : Awaits

-- The loop. A byte that is not the second magic byte is dropped, and the scan starts anew after it.
pub read_from : Awaits → List ℕ → ReadResult
unfolding read_body
read_from a [] = read_error
read_from first (b ∷ bs) = read_from (if b == magic0 then second else first) bs
read_from second (b ∷ bs) =
    let again = read_from first bs in if b == magic1 then read_body bs else again

abbrev pub read_frame : List ℕ → ReadResult
read_frame = read_from first

-- What one call of `Write` does: it takes up to `n` bytes, or takes some and fails.
pub data Outcome : Type 0 where
  wrote : ℕ → Outcome
  failed : ℕ → Outcome

-- An `io.Writer`: the bytes that it took, and the outcomes of its next calls. After those it takes
-- all that it is given.
pub record Writer : Type 0 where
  pub sent : List ℕ
  pub script : List Outcome

pub data WriteError : Type 0 where
  too_large unexpected_eof write_failed : WriteError

-- The loop of `writeAll`.
write_loop : List Outcome → List ℕ → List ℕ → Writer × Option WriteError
write_loop s sent [] = (record { sent = sent; script = s }, none)
write_loop [] sent (b ∷ buf) = (record { sent = sent ++ (b ∷ buf); script = [] }, none)
write_loop (failed n ∷ s) sent (b ∷ buf) =
    (record { sent = sent ++ take n (b ∷ buf); script = s }, some write_failed)
write_loop (wrote n ∷ s) sent (b ∷ buf) =
    let rest = write_loop s (sent ++ take n (b ∷ buf)) (drop n (b ∷ buf)) in
    if n == 0 then (record { sent = sent; script = s }, some unexpected_eof) else rest

unfoldable pub write_all : Writer → List ℕ → Writer × Option WriteError
unfolding write_loop
write_all w buf = write_loop w.script w.sent buf

-- The magic pair and the length, most significant byte first.
abbrev pub header : ℕ → List ℕ
header n = magic0 ∷ magic1 ∷ (n % 65536 / 256) ∷ (n % 65536 % 256) ∷ []

-- Once the header has failed the payload is not written.
write_payload : List ℕ → Writer × Option WriteError → Writer × Option WriteError
write_payload p (w, none) = write_all w p
write_payload p (w, some e) = (w, some e)

unfoldable pub write_frame : Writer → List ℕ → Writer × Option WriteError
unfolding write_payload
write_frame w p =
    if ltb max_size (length p)
    then (w, some too_large)
    else write_payload p (write_all w (header (length p)))

-- A frame on the wire.
abbrev pub encode : List ℕ → List ℕ
encode p = header (length p) ++ p
