-- ===== src/Webui/Chat/Repeat.antt =====
-- internal/webui/chat.go, RecordChat: a received packet is recorded once.
use go_meshtastic_serial2tcp.Prelude.{
  ℕ, zero, suc, ◌≡◌, ◌≢◌, refl, sym, subst, true, false, ◌||◌, Option, none, some, List, [], ◌∷◌,
  arith, Bool-cases, inl, inr,
}
use go_meshtastic_serial2tcp.Prelude.Keys.{Text, nat_key}
use go_meshtastic_serial2tcp.Prelude.Assoc.{Assoc}
use go_meshtastic_serial2tcp.Webui.Hub.{Hub, ChatMessage}
use go_meshtastic_serial2tcp.Webui.Chat.{
  chat_window, same_packet, is_repeat, put_back, merge_duplicate_chat, is_duplicate_chat,
  complete_chat, store_chat, unless_merged, record_chat,
}
use go_meshtastic_serial2tcp.Webui.Chat.Laws.{ids, is_new, merge_duplicate_chat-ids}

-- A repetition of a received message is one of its packet.
received-repeat :
    (msg prev : ChatMessage) → msg.outgoing ≡ false → is_repeat msg prev ≡ same_packet msg prev
received-repeat msg prev h = ground arith

duplicate-is_new :
    (n : ℕ) (msg : ChatMessage) (cs : List ChatMessage)
    → msg.outgoing ≡ false
    → is_duplicate_chat n msg cs ≡ true
    → is_new n msg.packet_id (ids cs) ≡ false
unfolding is_duplicate_chat
duplicate-is_new zero msg cs o h = absurd cc
duplicate-is_new (suc n) msg [] o h = absurd cc
duplicate-is_new (suc n) msg (prev ∷ cs) o h =
    ground (arith, received-repeat msg prev o, duplicate-is_new n msg cs o)

is_new-duplicate :
    (n : ℕ) (msg : ChatMessage) (cs : List ChatMessage)
    → is_new n msg.packet_id (ids cs) ≡ false
    → is_duplicate_chat n msg cs ≡ true
unfolding is_duplicate_chat
is_new-duplicate zero msg cs h = absurd cc
is_new-duplicate (suc n) msg [] h = absurd cc
is_new-duplicate (suc n) msg (prev ∷ cs) h = ground (arith, is_new-duplicate n msg cs)

-- A merge has found a repetition.
merge-duplicate :
    (n : ℕ) (protos : Assoc ℕ Text) (msg : ChatMessage) (cs ds : List ChatMessage) (u : ChatMessage)
    → merge_duplicate_chat n protos msg cs ≡ some (ds, u)
    → is_duplicate_chat n msg cs ≡ true
unfolding merge_duplicate_chat is_duplicate_chat
merge-duplicate zero protos msg cs ds u h = absurd cc
merge-duplicate (suc n) protos msg [] ds u h = absurd cc
merge-duplicate (suc n) protos msg (prev ∷ cs) ds u h = elim (Bool-cases (is_repeat msg prev)) [
  | inl e ↦ ground arith
  | inr e ↦
      behind (merge_duplicate_chat n protos msg cs) (merge-duplicate n protos msg cs) (rw e at h)
]
  where
    behind :
        (o : Option (List ChatMessage × ChatMessage))
        → ((es : List ChatMessage) (v : ChatMessage)
            → o ≡ some (es, v)
            → is_duplicate_chat n msg cs ≡ true)
        → put_back prev o ≡ some (ds, u)
        → (is_repeat msg prev || is_duplicate_chat n msg cs) ≡ true
    behind none f k = absurd cc
    behind (some (es, v)) f k = ground (arith, f es v refl)

-- The packet of a message is among the latest.
abbrev pub IsRecent : ℕ → List ChatMessage → Type 0
IsRecent i cs = is_new chat_window i (ids cs) ≡ false

store-IsRecent :
    (h : Hub) (msg : ChatMessage)
    → msg.packet_id ≢ 0
    → IsRecent msg.packet_id (store_chat h msg).chats
store-IsRecent h msg nz = ground arith

unless_merged-IsRecent :
    (h : Hub) (msg : ChatMessage) (o : Option (List ChatMessage × ChatMessage))
    → msg.outgoing ≡ false
    → msg.packet_id ≢ 0
    → ((ds : List ChatMessage) (u : ChatMessage)
        → o ≡ some (ds, u)
        → (ids ds ≡ ids h.chats) × (is_duplicate_chat chat_window msg h.chats ≡ true))
    → IsRecent msg.packet_id (unless_merged h msg o).chats
unless_merged-IsRecent h msg (some (ds, u)) received nz f =
    let (same, dup) = f ds u refl in
    subst (λ js. is_new chat_window msg.packet_id js ≡ false) (sym same)
      (duplicate-is_new chat_window msg h.chats received dup)
unless_merged-IsRecent h msg none received nz f =
    elim (Bool-cases (is_duplicate_chat chat_window msg h.chats)) [
      | inl e ↦ rw e (duplicate-is_new chat_window msg h.chats received e)
      | inr e ↦ rw e (store-IsRecent h msg nz)
    ]

unless_merged-ids :
    (h : Hub) (msg : ChatMessage) (o : Option (List ChatMessage × ChatMessage))
    → is_duplicate_chat chat_window msg h.chats ≡ true
    → ((ds : List ChatMessage) (u : ChatMessage) → o ≡ some (ds, u) → ids ds ≡ ids h.chats)
    → ids (unless_merged h msg o).chats ≡ ids h.chats
unless_merged-ids h msg (some (ds, u)) dup f = f ds u refl
unless_merged-ids h msg none dup f = rw dup

pub record_chat-IsRecent :
    (now : ℕ) (h : Hub) (msg : ChatMessage)
    → msg.outgoing ≡ false
    → msg.packet_id ≢ 0
    → IsRecent msg.packet_id (record_chat now h msg).chats
unfolding record_chat complete_chat
record_chat-IsRecent now h msg received nz =
    let m = complete_chat now h msg in
    unless_merged-IsRecent h m _ received nz λ ds u e. (
      merge_duplicate_chat-ids chat_window h.packet_protos m h.chats ds u e,
      merge-duplicate chat_window h.packet_protos m h.chats ds u e,
    )

pub record_chat-ids :
    (now : ℕ) (h : Hub) (msg : ChatMessage)
    → IsRecent msg.packet_id h.chats
    → ids (record_chat now h msg).chats ≡ ids h.chats
unfolding record_chat complete_chat
record_chat-ids now h msg recent =
    let m = complete_chat now h msg in
    unless_merged-ids h m _ (is_new-duplicate chat_window m h.chats recent)
      (merge_duplicate_chat-ids chat_window h.packet_protos m h.chats)

-- A message that was received from the mesh, with an id that is not 0, is recorded, whether it was
-- there before or not; then a message with the same id, whatever else it says, adds nothing: the
-- packets of the chat stay what they are, in their order.
pub record_chat-again :
    (now later : ℕ) (h : Hub) (msg copy : ChatMessage)
    → msg.outgoing ≡ false
    → msg.packet_id ≢ 0
    → copy.packet_id ≡ msg.packet_id
    → (is_new chat_window msg.packet_id (ids (record_chat now h msg).chats) ≡ false)
      × (ids (record_chat later (record_chat now h msg) copy).chats
          ≡ ids (record_chat now h msg).chats)
record_chat-again now later h msg copy received nz same =
    let recent = record_chat-IsRecent now h msg received nz in
    (
      recent,
      record_chat-ids later (record_chat now h msg) copy
          (subst (λ i. IsRecent i (record_chat now h msg).chats) (sym same) recent),
    )
