-- ===== src/Webui/Chat/Laws.antt =====
-- internal/webui/chat.go, RecordChat: the chat is bounded, and repeats none of its latest packets.
use go_meshtastic_serial2tcp.Prelude.{
  ℕ, zero, suc, ◌≤◌, ◌≡◌, refl, sym, ap, ◌∙◌, subst, Bool, true, false, ◌&&◌, ◌||◌, not, Option,
  none, some, some_inj, List, [], ◌∷◌, map, length, take, ◌==◌, arith, Bool-cases, inl, inr,
}
use go_meshtastic_serial2tcp.Prelude.Keys.{Text, nat_key}
use go_meshtastic_serial2tcp.Prelude.Assoc.{Assoc}
use go_meshtastic_serial2tcp.Webui.Hub.{Hub, ChatMessage, max_chat}
use go_meshtastic_serial2tcp.Webui.Chat.{
  chat_window, is_repeat, merged_proto, put_back, replace_first, merge_duplicate_chat,
  is_duplicate_chat, complete_chat, store_chat, unless_merged, record_chat,
}

abbrev pub ids : List ChatMessage → List ℕ
ids = map (λ m. m.packet_id)

-- The id `i`, unless it is 0, is not among the first `n` of the list.
abbrev pub is_new : ℕ → ℕ → List ℕ → Bool
is_new zero i js = true
is_new (suc n) i [] = true
is_new (suc n) i (j ∷ js) = (i == 0 || not (j == i)) && is_new n i js

-- No packet stands twice within nine messages in a row.
abbrev pub IsSpaced : List ℕ → Type 0
IsSpaced [] = Unit
IsSpaced (i ∷ js) = (is_new chat_window i js ≡ true) × IsSpaced js

-- The merge changes no id.
pub merge_duplicate_chat-ids :
    (n : ℕ) (protos : Assoc ℕ Text) (msg : ChatMessage) (cs ds : List ChatMessage) (u : ChatMessage)
    → merge_duplicate_chat n protos msg cs ≡ some (ds, u)
    → ids ds ≡ ids cs
unfolding merge_duplicate_chat
merge_duplicate_chat-ids zero protos msg cs ds u h = absurd cc
merge_duplicate_chat-ids (suc n) protos msg [] ds u h = absurd cc
merge_duplicate_chat-ids (suc n) protos msg (prev ∷ cs) ds u h =
    elim (Bool-cases (is_repeat msg prev)) [
      | inl e ↦ replaced (merged_proto protos msg prev) (rw e at h)
      | inr e ↦
          behind (merge_duplicate_chat n protos msg cs) (merge_duplicate_chat-ids n protos msg cs)
            (rw e at h)
    ]
  where
    replaced :
        (o : Option Text)
        → replace_first prev cs o ≡ some (ds, u)
        → ids ds ≡ prev.packet_id ∷ ids cs
    replaced none k = absurd cc
    replaced (some s) k = sym (ap ids (ap (λ t. t.0) (some_inj k)))

    behind :
        (o : Option (List ChatMessage × ChatMessage))
        → ((es : List ChatMessage) (v : ChatMessage) → o ≡ some (es, v) → ids es ≡ ids cs)
        → put_back prev o ≡ some (ds, u)
        → ids ds ≡ prev.packet_id ∷ ids cs
    behind none f k = absurd cc
    behind (some (es, v)) f k =
        sym (ap ids (ap (λ t. t.0) (some_inj k))) ∙ ap (λ t. prev.packet_id ∷ t) (f es v refl)

is_duplicate_chat-is_new :
    (n : ℕ) (msg : ChatMessage) (cs : List ChatMessage)
    → is_duplicate_chat n msg cs ≡ false
    → is_new n msg.packet_id (ids cs) ≡ true
unfolding is_duplicate_chat
is_duplicate_chat-is_new zero msg cs h = refl
is_duplicate_chat-is_new (suc n) msg [] h = refl
is_duplicate_chat-is_new (suc n) msg (prev ∷ cs) h =
    ground (arith, is_duplicate_chat-is_new n msg cs)

is_new-take : (n m i : ℕ) (js : List ℕ) → is_new n i js ≡ true → is_new n i (take m js) ≡ true
is_new-take zero m i js h = refl
is_new-take (suc n) zero i js h = refl
is_new-take (suc n) (suc m) i [] h = refl
is_new-take (suc n) (suc m) i (j ∷ js) h = ground (arith, is_new-take n m i js)

IsSpaced-take : (m : ℕ) (js : List ℕ) → IsSpaced js → IsSpaced (take m js)
IsSpaced-take zero js h = tt
IsSpaced-take (suc m) [] h = tt
IsSpaced-take (suc m) (j ∷ js) h = (is_new-take chat_window m j js h.0, IsSpaced-take m js h.1)

ids-take : (m : ℕ) (cs : List ChatMessage) → ids (take m cs) ≡ take m (ids cs)
ids-take zero cs = refl
ids-take (suc m) [] = refl
ids-take (suc m) (c ∷ cs) = ap (λ t. c.packet_id ∷ t) (ids-take m cs)

length-ids : (cs : List ChatMessage) → length (ids cs) ≡ length cs
length-ids [] = refl
length-ids (c ∷ cs) = ap suc (length-ids cs)

length-take-le : {A : Type 0} (m : ℕ) (xs : List A) → length (take m xs) ≤ m
length-take-le zero xs = omega arith
length-take-le (suc m) [] = omega arith
length-take-le (suc m) (x ∷ xs) = omega (arith, length-take-le m xs)

-- What is promised of the chat.
abbrev pub IsChat : Hub → Type 0
IsChat h = IsSpaced (ids h.chats) × (length h.chats ≤ max_chat)

store_chat-IsChat :
    (h : Hub) (msg : ChatMessage)
    → is_duplicate_chat chat_window msg h.chats ≡ false
    → IsChat h
    → IsChat (store_chat h msg)
store_chat-IsChat h msg new (spaced, small) = (
  subst IsSpaced (sym (ids-take max_chat (msg ∷ h.chats))) (
      IsSpaced-take max_chat (ids (msg ∷ h.chats))
        (is_duplicate_chat-is_new chat_window msg h.chats new, spaced)),
  length-take-le max_chat (msg ∷ h.chats),
)

unless_merged-IsChat :
    (h : Hub) (msg : ChatMessage) (o : Option (List ChatMessage × ChatMessage))
    → ((ds : List ChatMessage) (u : ChatMessage) → o ≡ some (ds, u) → ids ds ≡ ids h.chats)
    → IsChat h
    → IsChat (unless_merged h msg o)
unless_merged-IsChat h msg (some (ds, u)) f (spaced, small) =
    let same = f ds u refl in
    (
      subst IsSpaced (sym same) spaced,
      subst (λ n. n ≤ max_chat) (sym (length-ids h.chats) ∙ ap length (sym same) ∙ length-ids ds)
          small,
    )
unless_merged-IsChat h msg none f good =
    elim (Bool-cases (is_duplicate_chat chat_window msg h.chats)) [
      | inl e ↦ rw e good
      | inr e ↦ rw e (store_chat-IsChat h msg e good)
    ]

pub record_chat-IsChat :
    (now : ℕ) (h : Hub) (msg : ChatMessage) → IsChat h → IsChat (record_chat now h msg)
unfolding record_chat
record_chat-IsChat now h msg =
    unless_merged-IsChat h (complete_chat now h msg) _
      (merge_duplicate_chat-ids chat_window h.packet_protos (complete_chat now h msg) h.chats)

-- RecordChat, once for each message and its time.
abbrev pub record_chats : Hub → List (ℕ × ChatMessage) → Hub
record_chats h [] = h
record_chats h ((now, msg) ∷ msgs) = record_chats (record_chat now h msg) msgs

-- Whatever messages are recorded on a hub whose chat is in order, in whatever order and at whatever
-- times: the chat never holds more than 500 messages, and among any nine of them in a row no two
-- have the same packet id, unless it is 0.
pub record_chats-IsChat :
    (msgs : List (ℕ × ChatMessage)) (h : Hub) → IsChat h → IsChat (record_chats h msgs)
record_chats-IsChat [] h good = good
record_chats-IsChat ((now, msg) ∷ msgs) h good =
    record_chats-IsChat msgs (record_chat now h msg) (record_chat-IsChat now h msg good)
