-- ===== src/Frame/Write.antt =====
-- internal/frame/frame.go, WriteFrame and writeAll: what reaches the writer.
use go_meshtastic_serial2tcp.Prelude.{
  ℕ, ◌<◌, ◌≤◌, ◌≡◌, refl, sym, ap, subst, All, false, ◌∙◌, inl, inr, Option, none, some, List, [],
  ◌∷◌, ◌++◌, append-nil, append_assoc, length, take, drop, take-append-drop, Bool-cases, ◌==◌,
  arith, ltb,
}
use go_meshtastic_serial2tcp.Frame.{
  Outcome, wrote, failed, Writer, WriteError, too_large, write_loop, write_all, write_payload,
  write_frame, header, max_size, encode,
}

-- The bytes that a write adds to what the writer had are the whole of `buf` on success, and a
-- beginning of it on an error.
pub data Extends (before after buf : List ℕ) : Option WriteError → Type 0 where
  whole : after ≡ before ++ buf → Extends before after buf none
  part :
      (e : WriteError) (took left : List ℕ)
      → after ≡ before ++ took
      → buf ≡ took ++ left
      → Extends before after buf (some e)

Extends-more :
    (sent t after rest : List ℕ) {e : Option WriteError}
    → Extends (sent ++ t) after rest e
    → Extends sent after (t ++ rest) e
Extends-more sent t after rest (whole q) = whole (q ∙ append_assoc sent t rest)
Extends-more sent t after rest (part e took left q r) =
    part e (t ++ took) left (q ∙ append_assoc sent t took)
      (ap (λ u. t ++ u) r ∙ sym (append_assoc t took left))

write_loop-Extends :
    (s : List Outcome) (sent buf : List ℕ)
    → Extends sent (write_loop s sent buf).0.sent buf (write_loop s sent buf).1
unfolding write_loop
write_loop-Extends s sent [] = whole (sym (append-nil sent))
write_loop-Extends [] sent (b ∷ buf) = whole refl
write_loop-Extends (failed n ∷ s) sent (b ∷ buf) =
    part _ (take n (b ∷ buf)) (drop n (b ∷ buf)) refl (sym (take-append-drop n (b ∷ buf)))
write_loop-Extends (wrote n ∷ s) sent (b ∷ buf) = elim (Bool-cases (n == 0)) [
  | inl stops ↦ rw stops (part _ [] (b ∷ buf) (sym (append-nil sent)) refl)
  | inr goes ↦ rw goes (
      subst (λ u. Extends sent (write_loop s sent' rest).0.sent u (write_loop s sent' rest).1)
        (take-append-drop n (b ∷ buf))
        (Extends-more sent (take n (b ∷ buf)) _ rest (write_loop-Extends s sent' rest)))
]
  where
    sent' : List ℕ
    sent' = sent ++ take n (b ∷ buf)

    rest : List ℕ
    rest = drop n (b ∷ buf)

write_all-Extends :
    (w : Writer) (buf : List ℕ) → Extends w.sent (write_all w buf).0.sent buf (write_all w buf).1
unfolding write_all
write_all-Extends w buf = write_loop-Extends w.script w.sent buf

-- A payload that follows a header that was written in full, or not at all.
write_payload-Extends :
    (sent h p : List ℕ) (r : Writer × Option WriteError)
    → Extends sent r.0.sent h r.1
    → Extends sent (write_payload p r).0.sent (h ++ p) (write_payload p r).1
unfolding write_payload
write_payload-Extends sent h p (w, none) (whole q) =
    Extends-more sent h _ p
      (subst (λ u. Extends u (write_all w p).0.sent p (write_all w p).1) q (write_all-Extends w p))
write_payload-Extends sent h p (w, some e) (part _ took left q r) =
    part e took (left ++ p) q (ap (λ u. u ++ p) r ∙ append_assoc took left p)

-- For every writer, however it splits or fails its writes, what `WriteFrame` adds to the stream is
-- the whole encoded frame if it returns no error, and a beginning of it if it returns one.
pub write_frame-Extends :
    (w : Writer) (p : List ℕ)
    → Extends w.sent (write_frame w p).0.sent (encode p) (write_frame w p).1
unfolding write_frame
write_frame-Extends w p = elim (Bool-cases (ltb max_size (length p))) [
  | inl big ↦ rw big (part too_large [] (encode p) (sym (append-nil w.sent)) refl)
  | inr fits ↦ rw fits (
      write_payload-Extends w.sent (header (length p)) p _
        (write_all-Extends w (header (length p))))
]

-- A call of `Write` that takes a byte at least.
abbrev pub Progresses : Outcome → Type 0
Progresses (wrote n) = 0 < n
Progresses (failed n) = ⊥

write_loop-Progresses :
    (s : List Outcome) (sent buf : List ℕ)
    → All Progresses s
    → ((write_loop s sent buf).1 ≡ none) × All Progresses (write_loop s sent buf).0.script
unfolding write_loop
write_loop-Progresses s sent [] h = (refl, h)
write_loop-Progresses [] sent (b ∷ buf) h = (refl, tt)
write_loop-Progresses (failed n ∷ s) sent (b ∷ buf) h = absurd h.0
write_loop-Progresses (wrote n ∷ s) sent (b ∷ buf) h =
    rw (positive n h.0) (write_loop-Progresses s (sent ++ take n (b ∷ buf)) (drop n (b ∷ buf)) h.1)
  where
    positive : (n : ℕ) → 0 < n → (n == 0) ≡ false
    positive n h = ground arith

Extends-none :
    {before after buf : List ℕ} {e : Option WriteError}
    → Extends before after buf e
    → e ≡ none
    → after ≡ before ++ buf
Extends-none (whole q) h = q
Extends-none (part e took left q r) h = cc

write_payload-Progresses :
    (p : List ℕ) (r : Writer × Option WriteError)
    → r.1 ≡ none
    → All Progresses r.0.script
    → (write_payload p r).1 ≡ none
unfolding write_payload write_all
write_payload-Progresses p (w, none) e h = (write_loop-Progresses w.script w.sent p h).0
write_payload-Progresses p (w, some x) e h = cc

write_frame-none :
    (w : Writer) (p : List ℕ)
    → length p ≤ max_size
    → All Progresses w.script
    → (write_frame w p).1 ≡ none
unfolding write_frame write_all
write_frame-none w p small h =
    let sent = write_loop-Progresses w.script w.sent (header (length p)) h in
    rw (fits (length p) small) (write_payload-Progresses p _ sent.0 sent.1)
  where
    fits : (n : ℕ) → n ≤ max_size → ltb max_size n ≡ false
    fits n h = ground arith

-- A writer whose calls each take a byte at least, however few, gets the whole frame of every
-- payload that is not too large, and `WriteFrame` returns no error.
pub write_frame-Progresses :
    (w : Writer) (p : List ℕ)
    → length p ≤ max_size
    → All Progresses w.script
    → ((write_frame w p).1 ≡ none) × ((write_frame w p).0.sent ≡ w.sent ++ encode p)
write_frame-Progresses w p small h =
    let done = write_frame-none w p small h in (done, Extends-none (write_frame-Extends w p) done)

-- A write that returns no error has added the whole frame.
pub write_frame_sent :
    (w : Writer) (p : List ℕ)
    → (write_frame w p).1 ≡ none
    → (write_frame w p).0.sent ≡ w.sent ++ encode p
write_frame_sent w p = Extends-none (write_frame-Extends w p)
