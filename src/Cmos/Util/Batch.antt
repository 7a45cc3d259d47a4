-- ===== src/Cmos/Util/Batch.antt =====
-- What the subscribers get of a batch of messages.
use loop_charger_inverter.Prelude.{ℕ, ◌≡◌, refl, some, List, [], ◌∷◌, map}
use loop_charger_inverter.Prelude.Int.{ℤ}
use loop_charger_inverter.Cmos.Pub.{PubCalls, Publisher, composed, compose_data, message_line}
use loop_charger_inverter.Cmos.Pub.Clients.{Reaches, cmos_publish-Reaches}
use loop_charger_inverter.Cmos.Util.{Msg, cmos_publish_batch}

-- What the messages of a batch compose to, each without undefined behaviour.
pub data Composing : List Msg → List (List ℕ) → Type 0 where
  no_message : Composing [] []
  next_message :
      (m : Msg) (at : ℕ) (payload : List ℕ) {msgs : List Msg} {payloads : List (List ℕ)}
      → compose_data m.state m.type m.key m.value ≡ composed at payload
      → Composing msgs payloads
      → Composing (m ∷ msgs) (payload ∷ payloads)

module _ {W : Type 0} (calls : PubCalls W) where
  -- The lines one after the other, each to the sockets that the one before has kept.
  pub data ReachesEach : List (List ℕ) → W → List ℤ → W → List ℤ → Type 0 where
    no_line : {w : W} {socks : List ℤ} → ReachesEach [] w socks w socks
    next_line :
        (line : List ℕ) {lines : List (List ℕ)} {w w1 w' : W} {socks kept left : List ℤ}
        → Reaches calls line w socks w1 kept
        → ReachesEach lines w1 kept w' left
        → ReachesEach (line ∷ lines) w socks w' left

  -- When every message of a batch composes without undefined behaviour, `cmos_publish_batch` sends
  -- their lines in order, each once to every subscriber that is left, in the order of the table; a
  -- subscriber stays, at its place in that order, exactly as long as `send` gives a positive count,
  -- and else its socket is closed before the next is sent to. Nothing else of the publisher changes.
  pub cmos_publish_batch-ReachesEach :
      (msgs : List Msg) (payloads : List (List ℕ)) (w : W) (p : Publisher)
      → Composing msgs payloads
      → (w' : W) × (left : List ℤ) × (cmos_publish_batch calls w p msgs
          ≡ some (w', record p { sub_socks = left }))
        × ReachesEach (map (message_line p.pub_topic) payloads) w p.sub_socks w' left
  unfolding cmos_publish_batch
  cmos_publish_batch-ReachesEach _ _ w p no_message = (w, p.sub_socks, refl, no_line)
  cmos_publish_batch-ReachesEach _ _ w p (next_message m at payload {msgs} {payloads} e more) =
      let (w1, kept, sent, reaches) =
        cmos_publish-Reaches calls w p m.state m.type m.key m.value at payload e in
      let (w', left, rest, each) =
        cmos_publish_batch-ReachesEach msgs payloads w1 (record p { sub_socks = kept }) more in
      (
        w',
        left,
        rw (cmos_publish_batch, sent) rest,
        next_line (message_line p.pub_topic payload) reaches each,
      )
