-- ===== src/Cmos/Stream.antt =====
-- All the messages of a publisher on one connection, from `cmos_publish` to the callbacks.
use mathlib.Core.Path.{ap₂}
use mathlib.Core.List.{append_assoc}
use loop_charger_inverter.Prelude.{
  ℕ, ◌<◌, ◌≡◌, refl, ap, ◌∙◌, true, Option, some, List, [], ◌∷◌, ◌++◌, All, All-append, All-map,
  map, arith, length, get_elem?,
}
use loop_charger_inverter.Prelude.Int.{pos}
use loop_charger_inverter.Cmos.Text.{codes, space, newline}
use loop_charger_inverter.Cmos.Pub.{topic_size, message_line, composed, undefined, compose_data}
use loop_charger_inverter.Cmos.Pub.Message.{compose_data-fields}
use loop_charger_inverter.Cmos.Pub.Bounds.{message_line-whole}
use loop_charger_inverter.Cmos.Sub.{SubSlot, PubConn, Call, ctx_handle_line, calls_of}
use loop_charger_inverter.Cmos.Sub.Messages.{IsClean}
use loop_charger_inverter.Cmos.Sub.Framing.{
  IsLine, concat, stream, conn_receives, conn_receives-stream,
}
use loop_charger_inverter.Cmos.Link.{
  Message, data_of, line_of, IsPlain, received, data_short, data-IsWord, ctx_handle_line-message,
}

-- What `cmos_publish` sends to each subscriber for a message.
abbrev pub sent_line : List ℕ → Message → List ℕ
sent_line topic m = elim (compose_data m.state m.type (some m.key) m.value) [
  | composed at payload ↦ message_line topic payload
  | undefined ↦ []
]

module _ (topic : List ℕ) (topic_clean : IsClean topic)
    (topic_short : length topic < topic_size) where
  sent_line-line_of :
      (m : Message) → IsPlain topic m → sent_line topic m ≡ line_of topic m ++ (newline ∷ [])
  sent_line-line_of m plain =
      rw (sent_line, composes)
        ((message_line-whole m.state m.type (some m.key) m.value (length (data_of m)) topic
          (data_of m) composes topic_short).0)
    where
      composes :
          compose_data m.state m.type (some m.key) m.value
          ≡ composed (length (data_of m)) (data_of m)
      composes =
          compose_data-fields m.state m.type m.key m.value (omega (arith, data_short topic m plain))

  line_of-IsLine : (m : Message) → IsPlain topic m → IsLine (line_of topic m)
  line_of-IsLine m plain = (
    All-append _ (codes "MSG ") (topic ++ (space ∷ data_of m)) (ground arith) (
        All-append _ topic (space ∷ data_of m) (All-map topic (λ b c. ground arith) topic_clean)
          (refl, All-map (data_of m) (λ b c. ground arith) (data-IsWord topic m plain))),
    plain.fits,
  )

  sent-stream :
      (ms : List Message)
      → All (IsPlain topic) ms
      → concat (map (sent_line topic) ms) ≡ stream (map (line_of topic) ms) []
  sent-stream [] h = refl
  sent-stream (m ∷ ms) h =
      ap₂ (λ (l rest : List ℕ). l ++ rest) (sent_line-line_of m h.0) (sent-stream ms h.1)
      ∙ append_assoc (line_of topic m) (newline ∷ []) (stream (map (line_of topic) ms) [])

  calls_received :
      {C : Type 0} (slots : List (SubSlot C)) (s : ℕ) (slot : SubSlot C) (cb : C)
      → get_elem? slots s ≡ some slot
      → slot.used ≡ true
      → slot.cb ≡ some cb
      → slot.topic ≡ topic
      → 0 < length topic
      → (ms : List Message) → All (IsPlain topic) ms
      → map
          (ctx_handle_line slots (pos s))
          (map (λ l. l ++ (newline ∷ [])) (map (line_of topic) ms))
        ≡ map (received slot cb topic) ms
  calls_received slots s slot cb at used has_cb on_topic positive [] h = refl
  calls_received slots s slot cb at used has_cb on_topic positive (m ∷ ms) h =
      ap₂ (λ x (rest : List (Option (Call _))). x ∷ rest)
        (ctx_handle_line-message topic m h.0 slot cb slots s at used has_cb on_topic positive
          topic_clean)
        (calls_received slots s slot cb at used has_cb on_topic positive ms h.1)

-- From end to end: for messages with a key whose fields have no blank, line end or NUL and whose
-- lines have at most 511 bytes, on a topic of 1 to 63 such bytes: when the pieces that `recv` brings
-- are all that `cmos_publish` sent, cut anywhere, then the callback of a slot for the topic is called
-- for exactly the messages that the slot's filters let through, in order, with the value if the slot
-- has a filter for the key, else with the whole data; and the receive buffer is empty again.
pub conn_receives-published :
    {C : Type 0} (slots : List (SubSlot C)) (s : ℕ) (slot : SubSlot C) (cb : C) (c : PubConn)
    (topic : List ℕ) (ms : List Message) (pieces : List (List ℕ))
    → get_elem? slots s ≡ some slot
    → slot.used ≡ true
    → slot.cb ≡ some cb
    → slot.topic ≡ topic
    → c.sub_slot ≡ pos s
    → c.rxbuf ≡ []
    → (0 < length topic) × (length topic < topic_size) × IsClean topic
    → All (IsPlain topic) ms
    → concat pieces ≡ concat (map (sent_line topic) ms)
    → conn_receives slots c pieces
      ≡ (record c { rxbuf = [] }, calls_of (map (received slot cb topic) ms))
conn_receives-published slots s slot cb c topic ms pieces at used has_cb on_topic sub fresh
      (positive, short, clean) plain cuts =
    conn_receives-stream slots c pieces (map (line_of topic) ms) [] fresh
      (cuts ∙ sent-stream topic clean short ms plain) (lines ms plain) tt (omega arith)
    ∙ ap (λ calls. (record c { rxbuf = [] }, calls_of calls))
        (ap
            (λ k.
              map (ctx_handle_line slots k)
                (map (λ l. l ++ (newline ∷ [])) (map (line_of topic) ms)))
            sub
          ∙ calls_received topic clean short slots s slot cb at used has_cb on_topic positive ms
              plain)
  where
    lines : (ms : List Message) → All (IsPlain topic) ms → All IsLine (map (line_of topic) ms)
    lines [] h = tt
    lines (m ∷ ms) h = (line_of-IsLine topic clean short m h.0, lines ms h.1)
