-- ===== src/Broker/Canned/Laws.antt =====
-- internal/broker/canned.go, ParseCannedMessages: the messages that a text parses to.
use go_meshtastic_serial2tcp.Prelude.{
  ℕ, ◌≡◌, refl, sym, ap, ◌∙◌, subst, true, false, List, [], ◌∷◌, ◌++◌, append_assoc, All, ◌==◌,
  is_nil, arith, Bool-cases, inl, inr,
}
use mathlib.Core.List.{reverse, reverse-append, reverse-cons}
use go_meshtastic_serial2tcp.Prelude.Keys.{Text}
use go_meshtastic_serial2tcp.Prelude.Text.{space_len, space_len_rev, trim_space, split, cons_head}
use go_meshtastic_serial2tcp.Prelude.Text.Laws.{
  IsTrimmed, IsTrimmed-trim_space, trim_space-IsTrimmed, trim_space-part,
}
use go_meshtastic_serial2tcp.Broker.Canned.{keep_messages, parse_canned_messages}

-- No separator in the text.
abbrev IsPlain : Text → Type 0
IsPlain s = All (λ c. (c == 124) ≡ false) s

-- A message as the firmware keeps it: not empty, without white space around it, without a separator.
abbrev pub IsMessage : Text → Type 0
IsMessage m = (is_nil m ≡ false) × IsTrimmed m × IsPlain m

-- The messages with separators between them.
abbrev pub join : List Text → Text
join [] = []
join (m ∷ []) = m
join (m ∷ n ∷ ms) = m ++ (124 ∷ join (n ∷ ms))

IsPlain-middle : (pre s post : Text) → IsPlain (pre ++ (s ++ post)) → IsPlain s
IsPlain-middle [] [] post h = tt
IsPlain-middle [] (c ∷ s) post h = (h.0, IsPlain-middle [] s post h.1)
IsPlain-middle (c ∷ pre) s post h = IsPlain-middle pre s post h.1

split-IsPlain : (s : Text) → All IsPlain (split 124 s)
unfolding split cons_head
split-IsPlain [] = (tt, tt)
split-IsPlain (c ∷ s) = elim (Bool-cases (c == 124)) [
  | inl e ↦ rw e (tt, split-IsPlain s)
  | inr e ↦ rw e (headed c e (split 124 s) (split-IsPlain s))
]
  where
    headed :
        (c : ℕ)
        → (c == 124) ≡ false
        → (ts : List Text) → All IsPlain ts
        → All IsPlain (cons_head c ts)
    headed c e [] h = ((e, tt), tt)
    headed c e (t ∷ ts) h = ((e, h.0), h.1)

keep_messages-IsMessage : (ts : List Text) → All IsPlain ts → All IsMessage (keep_messages ts)
unfolding keep_messages
keep_messages-IsMessage [] h = tt
keep_messages-IsMessage (t ∷ ts) h = elim (Bool-cases (is_nil (trim_space t))) [
  | inl e ↦ rw e (keep_messages-IsMessage ts h.1)
  | inr e ↦
      let (pre, post, whole) = trim_space-part t in
      let plain = IsPlain-middle pre (trim_space t) post (subst IsPlain (sym whole) h.0) in
      rw e ((e, trim_space-IsTrimmed t, plain), keep_messages-IsMessage ts h.1)
]

pub parse_canned_messages-IsMessage : (raw : Text) → All IsMessage (parse_canned_messages raw)
unfolding parse_canned_messages
parse_canned_messages-IsMessage raw = elim (Bool-cases (is_nil (trim_space raw))) [
  | inl e ↦ rw e tt
  | inr e ↦ rw e (keep_messages-IsMessage _ (split-IsPlain (trim_space raw)))
]

-- Next to a separator no white space begins or ends that did not before.
space_len-separator :
    (m x : Text)
    → is_nil m ≡ false
    → (space_len m == 0) ≡ true
    → (space_len (m ++ (124 ∷ x)) == 0) ≡ true
space_len-separator [] x some_byte e = absurd cc
space_len-separator (a ∷ []) [] some_byte e = ground arith
space_len-separator (a ∷ []) (c ∷ x) some_byte e = ground arith
space_len-separator (a ∷ b ∷ []) x some_byte e = ground arith
space_len-separator (a ∷ b ∷ c ∷ m) x some_byte e = e

space_len_rev-separator :
    (m x : Text)
    → is_nil m ≡ false
    → (space_len_rev m == 0) ≡ true
    → (space_len_rev (m ++ (124 ∷ x)) == 0) ≡ true
space_len_rev-separator [] x some_byte e = absurd cc
space_len_rev-separator (a ∷ []) [] some_byte e = ground arith
space_len_rev-separator (a ∷ []) (c ∷ x) some_byte e = ground arith
space_len_rev-separator (a ∷ b ∷ []) x some_byte e = ground arith
space_len_rev-separator (a ∷ b ∷ c ∷ m) x some_byte e = e

join-IsTrimmed :
    (m : Text) (ms : List Text)
    → All IsMessage (m ∷ ms)
    → (is_nil (join (m ∷ ms)) ≡ false) × IsTrimmed (join (m ∷ ms))
join-IsTrimmed m [] ((some_byte, trimmed, plain), _) = (some_byte, trimmed)
join-IsTrimmed m (n ∷ ms) ((some_byte, (front, back), plain), h) =
    let (more, (_, ends)) = join-IsTrimmed n ms h in
    let rest = join (n ∷ ms) in
    (
      longer m rest,
      (
        space_len-separator m rest some_byte front,
        ap (λ t. space_len_rev t == 0) (turned m rest)
            ∙ space_len_rev-separator (reverse rest) (reverse m) (turned_nil rest more) ends,
      ),
    )
  where
    longer : (m x : Text) → is_nil (m ++ (124 ∷ x)) ≡ false
    longer [] x = refl
    longer (c ∷ m) x = refl

    turned : (m x : Text) → reverse (m ++ (124 ∷ x)) ≡ reverse x ++ (124 ∷ reverse m)
    turned m x =
        reverse-append m (124 ∷ x)
        ∙ ap (λ t. t ++ reverse m) (reverse-cons 124 x)
        ∙ append_assoc (reverse x) (124 ∷ []) (reverse m)

    turned_nil : (x : Text) → is_nil x ≡ false → is_nil (reverse x) ≡ false
    turned_nil [] e = e
    turned_nil (c ∷ x) e = ap is_nil (reverse-cons c x) ∙ longer_by_one (reverse x)
      where
        longer_by_one : (y : Text) → is_nil (y ++ (c ∷ [])) ≡ false
        longer_by_one [] = refl
        longer_by_one (d ∷ y) = refl

split-plain : (m : Text) → IsPlain m → split 124 m ≡ m ∷ []
unfolding split cons_head
split-plain [] h = refl
split-plain (c ∷ m) (e, h) = rw e (ap (cons_head c) (split-plain m h))

split-separator : (m x : Text) → IsPlain m → split 124 (m ++ (124 ∷ x)) ≡ m ∷ split 124 x
unfolding split cons_head
split-separator [] x h = refl
split-separator (c ∷ m) x (e, h) = rw e (ap (cons_head c) (split-separator m x h))

split-join :
    (m : Text) (ms : List Text) → All IsMessage (m ∷ ms) → split 124 (join (m ∷ ms)) ≡ m ∷ ms
split-join m [] ((_, _, plain), _) = split-plain m plain
split-join m (n ∷ ms) ((_, _, plain), h) =
    split-separator m (join (n ∷ ms)) plain ∙ ap (λ t. m ∷ t) (split-join n ms h)

keep_messages-same : (ms : List Text) → All IsMessage ms → keep_messages ms ≡ ms
unfolding keep_messages
keep_messages-same [] h = refl
keep_messages-same (m ∷ ms) ((some_byte, trimmed, plain), h) =
    let same = IsTrimmed-trim_space m trimmed in
    rw (same, some_byte) (ap (λ t. m ∷ t) (keep_messages-same ms h))

-- Messages that are not empty, have no white space around them and no separator come out of the
-- text in which they stand with separators between them, each once and in order.
pub parse_canned_messages-join :
    (ms : List Text) → All IsMessage ms → parse_canned_messages (join ms) ≡ ms
unfolding parse_canned_messages
parse_canned_messages-join [] h = rw (IsTrimmed-trim_space [] (refl, refl)) refl
parse_canned_messages-join (m ∷ ms) h =
    let (some_byte, trimmed) = join-IsTrimmed m ms h in
    rw (IsTrimmed-trim_space (join (m ∷ ms)) trimmed, some_byte)
      (ap keep_messages (split-join m ms h) ∙ keep_messages-same (m ∷ ms) h)

-- So what any text parses to can be joined and parsed again.
parse_canned_messages-again :
    (raw : Text)
    → parse_canned_messages (join (parse_canned_messages raw)) ≡ parse_canned_messages raw
parse_canned_messages-again raw =
    parse_canned_messages-join (parse_canned_messages raw) (parse_canned_messages-IsMessage raw)
