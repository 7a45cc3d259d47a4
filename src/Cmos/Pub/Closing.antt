-- ===== src/Cmos/Pub/Closing.antt =====
-- The sockets that `cmos_pub_close` of lib/cmos/cmos_pub.c closes.
use loop_charger_inverter.Prelude.{◌≡◌, refl, List, [], ◌∷◌, ◌++◌}
use loop_charger_inverter.Prelude.Int.{ℤ, pos, negsuc}
use loop_charger_inverter.Cmos.Pub.{
  PubCalls, Publisher, closed_publisher, close_open, close_each, cmos_pub_close,
}

-- From one world to another `close` is called for these descriptors, in order, and nothing else.
pub data Closes {W : Type 0} (calls : PubCalls W) : W → List ℤ → W → Type 0 where
  none_left : {w : W} → Closes calls w [] w
  closed :
      (w : W) (fd : ℤ) {fds : List ℤ} {w' : W}
      → Closes calls (calls.close w fd) fds w'
      → Closes calls w (fd ∷ fds) w'

-- Those that are open: a variable without a descriptor holds -1.
abbrev pub open_of : List ℤ → List ℤ
open_of [] = []
open_of (pos fd ∷ fds) = pos fd ∷ open_of fds
open_of (negsuc n ∷ fds) = open_of fds

-- All open descriptors of a publisher: the subscribers, then its epoll, its listener, the master.
abbrev pub sockets_of : Publisher → List ℤ
sockets_of p = open_of (p.sub_socks ++ (p.pub_epfd ∷ p.listen_sock ∷ p.master_sock ∷ []))

-- The publisher's sockets are closed, each once, and its variables keep none.
pub record AreClosed {W : Type 0} (calls : PubCalls W) (w : W) (p : Publisher) (w' : W)
    (p' : Publisher) : Type 0 where
  pub each_once : Closes calls w (sockets_of p) w'
  pub none_kept : p' ≡ closed_publisher p

module _ {W : Type 0} (calls : PubCalls W) where
  close_open-Closes :
      (w : W) (fd : ℤ) (fds : List ℤ) {w' : W}
      → Closes calls (close_open calls w fd) (open_of fds) w'
      → Closes calls w (open_of (fd ∷ fds)) w'
  unfolding close_open
  close_open-Closes w (pos n) fds h = closed w (pos n) h
  close_open-Closes w (negsuc n) fds h = h

  close_each-Closes :
      (socks : List ℤ) (w : W) (fds : List ℤ) {w' : W}
      → Closes calls (close_each calls w socks) (open_of fds) w'
      → Closes calls w (open_of (socks ++ fds)) w'
  unfolding close_each
  close_each-Closes [] w fds h = h
  close_each-Closes (s ∷ socks) w fds h =
      close_open-Closes w s (socks ++ fds) (close_each-Closes socks (close_open calls w s) fds h)

  pub cmos_pub_close-AreClosed :
      (w : W) (p : Publisher)
      → AreClosed calls w p (cmos_pub_close calls w p).0 (cmos_pub_close calls w p).1
  unfolding cmos_pub_close
  cmos_pub_close-AreClosed w p = record {
    each_once = close_each-Closes p.sub_socks w _ (
        close_open-Closes _ p.pub_epfd _
          (close_open-Closes _ p.listen_sock _ (close_open-Closes _ p.master_sock [] none_left)));
    none_kept = refl;
  }
