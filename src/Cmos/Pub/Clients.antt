-- ===== src/Cmos/Pub/Clients.antt =====
-- The table of the publisher's subscribers.
use loop_charger_inverter.Prelude.{
  ℕ, ◌≤◌, ◌≡◌, refl, true, false, Option, none, some, List, [], ◌∷◌, arith, length, length-append,
  Bool-cases, inl, inr, subst, Option-cases, ◌⊎◌,
}
use loop_charger_inverter.Prelude.Int.{ℤ}
use loop_charger_inverter.Cmos.Pub.{
  cm_max_sub_client, Publisher, PubCalls, not_positive, Composed, composed, undefined, compose_data,
  message_line, send_all, cmos_publish, cmos_pub_poll,
}

-- What the bridge's two threads do with the publisher once it is made.
pub data PubStep : Type 0 where
  poll : PubStep
  publish : (state type key value : Option (List ℕ)) → PubStep

Composed-cases :
    (c : Composed) → (c ≡ undefined) ⊎ ((at : ℕ) × (payload : List ℕ) × (c ≡ composed at payload))
Composed-cases undefined = inl refl
Composed-cases (composed at payload) = inr (at, payload, refl)

abbrev IfRan : {W : Type 0} → Option (W × Publisher) → Type 0
IfRan none = Unit
IfRan (some r) = length r.1.sub_socks ≤ cm_max_sub_client

module _ {W : Type 0} (calls : PubCalls W) where
  -- The steps in order; `none` once the behaviour is undefined.
  unfoldable pub pub_run : W → Publisher → List PubStep → Option (W × Publisher)
  pub_run w p [] = some (w, p)
  pub_run w p (poll ∷ steps) = let (w', p') = cmos_pub_poll calls w p in pub_run w' p' steps
  pub_run w p (publish state type key value ∷ steps) =
      elim (cmos_publish calls w p state type key value) [
        | none ↦ none
        | some (w', p') ↦ pub_run w' p' steps
      ]

  -- The sockets that `send` succeeds for, in the order of the table, as the sends are made.
  pub data Reaches (line : List ℕ) : W → List ℤ → W → List ℤ → Type 0 where
    done : {w : W} → Reaches line w [] w []
    dropped :
        (w : W) (sock : ℤ) {socks kept : List ℤ} {w' : W}
        → not_positive (calls.send w sock line).1 ≡ true
        → Reaches line (calls.close (calls.send w sock line).0 sock) socks w' kept
        → Reaches line w (sock ∷ socks) w' kept
    reached :
        (w : W) (sock : ℤ) {socks kept : List ℤ} {w' : W}
        → not_positive (calls.send w sock line).1 ≡ false
        → Reaches line (calls.send w sock line).0 socks w' kept
        → Reaches line w (sock ∷ socks) w' (sock ∷ kept)

  send_all-Reaches :
      (line : List ℕ) (w : W) (socks : List ℤ)
      → Reaches line w socks (send_all calls w socks line).0 (send_all calls w socks line).1
  unfolding send_all
  send_all-Reaches line w [] = done
  send_all-Reaches line w (sock ∷ socks) =
      elim (Bool-cases (not_positive (calls.send w sock line).1)) [
        | inl e ↦
            rw (send_all, e)
              (dropped w sock e
                (send_all-Reaches line (calls.close (calls.send w sock line).0 sock) socks))
        | inr e ↦
            rw (send_all, e)
              (reached w sock e (send_all-Reaches line (calls.send w sock line).0 socks))
      ]

  send_all-length :
      (w : W) (socks : List ℤ) (line : List ℕ)
      → length (send_all calls w socks line).1 ≤ length socks
  unfolding send_all
  send_all-length w [] line = omega arith
  send_all-length w (sock ∷ socks) line =
      elim (Bool-cases (not_positive (calls.send w sock line).1)) [
        | inl e ↦
            rw (send_all, e)
              (omega
                (arith, send_all-length (calls.close (calls.send w sock line).0 sock) socks line))
        | inr e ↦
            rw (send_all, e) (omega (arith, send_all-length (calls.send w sock line).0 socks line))
      ]

  -- When its message composes without undefined behaviour, `cmos_publish` sends the same line once to
  -- each subscriber in the order of the table; a subscriber stays, at its place in that order,
  -- exactly if `send` gave a positive count, and else its socket is closed before the next is sent to.
  -- Nothing else of the publisher changes.
  pub cmos_publish-Reaches :
      (w : W) (p : Publisher) (state type key value : Option (List ℕ)) (at : ℕ) (payload : List ℕ)
      → compose_data state type key value ≡ composed at payload
      → (w' : W) × (kept : List ℤ) × (cmos_publish calls w p state type key value
          ≡ some (w', record p { sub_socks = kept }))
        × Reaches (message_line p.pub_topic payload) w p.sub_socks w' kept
  unfolding cmos_publish
  cmos_publish-Reaches w p state type key value at payload e = (
    (send_all calls w p.sub_socks (message_line p.pub_topic payload)).0,
    (send_all calls w p.sub_socks (message_line p.pub_topic payload)).1,
    rw (cmos_publish, e) refl,
    send_all-Reaches (message_line p.pub_topic payload) w p.sub_socks,
  )

  cmos_pub_poll-length :
      (w : W) (p : Publisher)
      → length p.sub_socks ≤ cm_max_sub_client
      → length (cmos_pub_poll calls w p).1.sub_socks ≤ cm_max_sub_client
  unfolding cmos_pub_poll
  cmos_pub_poll-length w p h = ground (
    arith,
    length-append p.sub_socks
        ((calls.accept (calls.epoll_wait w p.pub_epfd).0 p.listen_sock).1 ∷ []),
  )

  cmos_publish-IfRan :
      (w : W) (p : Publisher) (state type key value : Option (List ℕ))
      → length p.sub_socks ≤ cm_max_sub_client
      → IfRan (cmos_publish calls w p state type key value)
  unfolding cmos_publish
  cmos_publish-IfRan w p state type key value h =
      elim (Composed-cases (compose_data state type key value)) [
        | inl e ↦ rw (cmos_publish, e) tt
        | inr (at, payload, e) ↦
            rw (cmos_publish, e)
              (omega (arith, h, send_all-length w p.sub_socks (message_line p.pub_topic payload)))
      ]

  pub_run-IfRan :
      (w : W) (p : Publisher) (steps : List PubStep)
      → length p.sub_socks ≤ cm_max_sub_client
      → IfRan (pub_run w p steps)
  unfolding pub_run
  pub_run-IfRan w p [] h = h
  pub_run-IfRan w p (poll ∷ steps) h =
      pub_run-IfRan (cmos_pub_poll calls w p).0 (cmos_pub_poll calls w p).1 steps
        (cmos_pub_poll-length w p h)
  pub_run-IfRan w p (publish state type key value ∷ steps) h =
      elim (Option-cases (cmos_publish calls w p state type key value)) [
        | inl e ↦ rw (pub_run, e) tt
        | inr ((w', p'), e) ↦
            rw (pub_run, e)
              (pub_run-IfRan w' p' steps
                (subst IfRan e (cmos_publish-IfRan w p state type key value h)))
      ]

  -- With at most 512 subscribers at first there are never more, whatever polls and messages follow and
  -- however the calls of the system answer.
  pub pub_run-clients :
      (w : W) (p : Publisher) (steps : List PubStep) (w' : W) (p' : Publisher)
      → length p.sub_socks ≤ cm_max_sub_client
      → pub_run w p steps ≡ some (w', p')
      → length p'.sub_socks ≤ cm_max_sub_client
  pub_run-clients w p steps w' p' h e = subst IfRan e (pub_run-IfRan w p steps h)
