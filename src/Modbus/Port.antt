-- ===== src/Modbus/Port.antt =====
-- Opening and closing the serial port, of lib/modbus/modbus_rtu_client.c. The calls of the system
-- are a parameter, on a state of type `W`.
use loop_charger_inverter.Prelude.{
  ℕ, ◌+◌, ◌/◌, ◌%◌, Bool, true, false, not, ◌||◌, Option, none, some, ◌==◌, if◌then◌else◌, String,
}
use loop_charger_inverter.Prelude.Int.{ℤ, pos, negsuc, eq_pos, is_neg}
use loop_charger_inverter.Modbus.Transaction.{Config, Ctx, timeout_of}

-- The field CSIZE of `c_cflag`.
pub data CharSize : Type 0 where
  cs5 cs6 cs7 cs8 : CharSize

-- `struct termios`: the two speeds, the flags of each word that the file changes, with the rest of the
-- word, and VMIN and VTIME.
pub record Termios : Type 0 where
  pub ispeed : ℕ
  pub ospeed : ℕ
  pub parenb : Bool
  pub cstopb : Bool
  pub csize : CharSize
  pub crtscts : Bool
  pub cread : Bool
  pub clocal : Bool
  pub other_cflag : ℕ
  pub icanon : Bool
  pub echo : Bool
  pub echoe : Bool
  pub isig : Bool
  pub other_lflag : ℕ
  pub opost : Bool
  pub other_oflag : ℕ
  pub ixon : Bool
  pub ixoff : Bool
  pub ixany : Bool
  pub ignbrk : Bool
  pub brkint : Bool
  pub parmrk : Bool
  pub istrip : Bool
  pub inlcr : Bool
  pub igncr : Bool
  pub icrnl : Bool
  pub other_iflag : ℕ
  pub vmin : ℕ
  pub vtime : ℕ

-- `open`, `tcgetattr`, `tcsetattr` (each with whether it succeeds) and `close`.
pub record SerialCalls (W : Type 0) : Type 0 where
  pub open_path : W → String → W × ℤ
  pub get_attributes : W → ℤ → Option Termios
  pub set_attributes : W → ℤ → Termios → W × Bool
  pub close_fd : W → ℤ → W

-- `map_baud_rate`; a constant B<n> of termios stands as the rate n.
unfoldable pub map_baud_rate : ℕ → ℕ
map_baud_rate rate =
    if rate == 1200
      || rate == 2400
      || rate == 4800
      || rate == 9600
      || rate == 19200
      || rate == 38400
      || rate == 57600
      || rate == 115200
    then rate
    else 9600

-- What `configure_serial_port` makes of the settings: raw bytes of 8 bits, no parity, one stop bit, no
-- flow control.
unfoldable pub raw_settings : ℕ → ℕ → Termios → Termios
unfolding map_baud_rate
raw_settings baud_rate timeout_ms tty = record tty {
  ispeed = map_baud_rate baud_rate;
  ospeed = map_baud_rate baud_rate;
  parenb = false;
  cstopb = false;
  csize = cs8;
  crtscts = false;
  cread = true;
  clocal = true;
  icanon = false;
  echo = false;
  echoe = false;
  isig = false;
  opost = false;
  ixon = false;
  ixoff = false;
  ixany = false;
  ignbrk = false;
  brkint = false;
  parmrk = false;
  istrip = false;
  inlcr = false;
  igncr = false;
  icrnl = false;
  vmin = 0;
  vtime = (timeout_ms / 100 + 1) % 256;
}

module _ {W : Type 0} (calls : SerialCalls W) where
  unfoldable pub configure_serial_port : W → ℤ → ℕ → ℕ → W × ℤ
  unfolding raw_settings
  configure_serial_port w fd baud_rate timeout_ms = elim (calls.get_attributes w fd) [
    | none ↦ (w, negsuc 0)
    | some tty ↦
        let (w', done) = calls.set_attributes w fd (raw_settings baud_rate timeout_ms tty) in
        (w', if done then pos 0 else negsuc 0)
  ]

  -- `mb_rtu_client_connect` with pointers that are not null: the context, and the result.
  unfoldable pub connect : W → Config → W × Ctx × ℤ
  unfolding configure_serial_port
  connect w cfg =
      let (opened, fd) = calls.open_path w cfg.serial_path in
      let (w', code) = configure_serial_port opened fd cfg.baud_rate (timeout_of cfg) in
      if is_neg fd
      then (opened, record { fd = fd; cfg = cfg }, negsuc 0)
      else if not (eq_pos code 0)
      then (calls.close_fd w' fd, record { fd = negsuc 0; cfg = cfg }, negsuc 0)
      else (w', record { fd = fd; cfg = cfg }, pos 0)

  -- `mb_rtu_client_disconnect`.
  unfoldable pub disconnect : W → Option Ctx → W × Option Ctx
  disconnect w none = (w, none)
  disconnect w (some ctx) =
      if is_neg ctx.fd
      then (w, some ctx)
      else (calls.close_fd w ctx.fd, some (record ctx { fd = negsuc 0 }))
