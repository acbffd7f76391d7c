-- ===== src/Osdp/Port.antt =====
-- The serial port of readers/osdp/osdp.c: `send_packet` and `portsetup`. The system calls and the
-- constants of their headers are outside.
use osdp_roger_acs.Base.{
  ℕ, ◌-◌, ◌≤◌, ◌<◌, min, max, ◌≡◌, refl, arith, List, [], ◌∷◌, ◌++◌, Option, none, some, Bool,
  if◌then◌else◌, ◌>>=◌, first, bit_and, bit_or, not32,
}
use osdp_roger_acs.Base.{bit, bit-bit_and, bit-bit_or, bit-not32, bit-le-one}
use osdp_roger_acs.Osdp.Packet.{Packet}

-- What is handed to `write`, and whether that took it; `none` is a length past the end of the buffer.
unfoldable pub send_packet : Packet → Bool → Option (List ℕ × Bool)
send_packet p taken = first p.bytes p.len >>= λ bytes. some (bytes, taken)

-- The two fields of `struct termios` that are written by name.
pub record Termios : Type 0 where
  pub c_cflag : ℕ
  pub c_lflag : ℕ

-- The constants of termios.h and linux/serial.h.
pub record PortFlags : Type 0 where
  pub parenb : ℕ
  pub cstopb : ℕ
  pub csize : ℕ
  pub cs8 : ℕ
  pub clocal : ℕ
  pub cread : ℕ
  pub icanon : ℕ
  pub echo : ℕ
  pub echoe : ℕ
  pub isig : ℕ
  pub ser_rs485_enabled : ℕ
  pub ser_rs485_rts_after_send : ℕ
  pub ser_rs485_rts_on_send : ℕ

-- What the system does: whether the device opens, what it is set to, and the functions of termios.h.
pub record PortSystem : Type 0 where
  pub opens : Option ℕ
  pub attributes : Termios
  pub set_9600 : Termios → Termios
  pub cfmakeraw : Termios → Termios

-- The calls that change the port. The result of the first is only printed.
pub data PortCall : Type 0 where
  set_rs485 : ℕ → PortCall
  set_attributes : Termios → PortCall
  flush : PortCall

-- `&= ~flag`.
abbrev without : ℕ → ℕ → ℕ
without flags flag = bit_and flags (not32 flag)

unfoldable pub rs485_flags : PortFlags → ℕ
rs485_flags f =
    without (bit_or f.ser_rs485_enabled f.ser_rs485_rts_after_send) f.ser_rs485_rts_on_send

unfoldable pub port_options : PortFlags → Termios → Termios
port_options f o = record {
  c_cflag =
      bit_or (bit_or (without (without (without o.c_cflag f.parenb) f.cstopb) f.csize) f.cs8)
        (bit_or f.clocal f.cread);
  c_lflag = without o.c_lflag (bit_or (bit_or (bit_or f.icanon f.echo) f.echoe) f.isig);
}

-- `portsetup(devname, useRS485)`: the file descriptor, and the calls in their order.
unfoldable pub portsetup : PortSystem → PortFlags → Bool → Option ℕ × List PortCall
portsetup os f use_rs485 = elim os.opens [
  | none ↦ (none, [])
  | some fd ↦
      let options = port_options f (os.set_9600 os.attributes) in
      (
        some fd,
        (if use_rs485 then set_rs485 (rs485_flags f) ∷ [] else [])
            ++ (set_attributes (os.cfmakeraw options) ∷ flush ∷ []),
      )
]

-- What cfmakeraw is documented to do to the control flags: no parity, and characters of 8 bits.
pub record MakesRaw (os : PortSystem) (f : PortFlags) : Type 0 where
  pub control :
      (t : Termios) (k : ℕ)
      → k < 32
      → bit k (os.cfmakeraw t).c_cflag
        ≡ max (min (bit k t.c_cflag) (1 - max (bit k f.csize) (bit k f.parenb))) (bit k f.cs8)

-- Control flags for characters of 8 bits without parity and with one stop bit, and a receiver that is
-- on; what these flags do not say is as it was. `cs8` is a value of the bits `csize`, and the other
-- flags are other bits.
pub record Is8N1 (f : PortFlags) (before after : ℕ) : Type 0 where
  pub eight : (k : ℕ) → k < 32 → bit k f.csize ≡ 1 → bit k after ≡ bit k f.cs8
  pub no_parity : (k : ℕ) → k < 32 → bit k f.parenb ≡ 1 → bit k f.cs8 ≡ 0 → bit k after ≡ 0
  pub one_stop :
      (k : ℕ)
      → k < 32
      → bit k f.cstopb ≡ 1
      → max (bit k f.cs8) (max (bit k f.clocal) (bit k f.cread)) ≡ 0
      → bit k after ≡ 0
  pub receives :
      (k : ℕ)
      → k < 32
      → max (bit k f.clocal) (bit k f.cread) ≡ 1
      → max (bit k f.csize) (bit k f.parenb) ≡ 0
      → bit k after ≡ 1
  pub keeps :
      (k : ℕ)
      → k < 32
      → max (max (bit k f.csize) (bit k f.parenb)) (bit k f.cstopb) ≡ 0
      → max (bit k f.cs8) (max (bit k f.clocal) (bit k f.cread)) ≡ 0
      → bit k after ≡ bit k before

set_stays : (x c : ℕ) → c ≤ 1 → max (min (max (max x c) 1) (1 - 0)) c ≡ 1
set_stays x c h = omega arith

clear_stays :
    (x : ℕ)
    → x ≤ 1
    → max (min (max (max (min (min (min x (1 - 0)) (1 - 0)) (1 - 0)) 0) 0) (1 - max 0 0)) 0 ≡ x
clear_stays x h = omega arith

module _ (os : PortSystem) (f : PortFlags) (raw : MakesRaw os f) (o : Termios) where
  after : ℕ
  after = (os.cfmakeraw (port_options f o)).c_cflag

  -- Each bit of what is set.
  port_bit :
      (k : ℕ)
      → k < 32
      → bit k after
        ≡ max
            (min
              (max
                (max
                  (min
                    (min (min (bit k o.c_cflag) (1 - bit k f.parenb)) (1 - bit k f.cstopb))
                    (1 - bit k f.csize))
                  (bit k f.cs8))
                (max (bit k f.clocal) (bit k f.cread)))
              (1 - max (bit k f.csize) (bit k f.parenb)))
            (bit k f.cs8)
  unfolding after port_options
  port_bit k h =
      let no_parity = without o.c_cflag f.parenb in
      let one_stop = without no_parity f.cstopb in
      let sized = without one_stop f.csize in
      rw
        (
          raw.control (port_options f o) k h,
          bit-bit_or k (bit_or sized f.cs8) (bit_or f.clocal f.cread),
          bit-bit_or k sized f.cs8,
          bit-bit_or k f.clocal f.cread,
          bit-bit_and k one_stop (not32 f.csize),
          bit-bit_and k no_parity (not32 f.cstopb),
          bit-bit_and k o.c_cflag (not32 f.parenb),
          bit-not32 k f.csize h,
          bit-not32 k f.cstopb h,
          bit-not32 k f.parenb h,
        )
        refl

  port_options-Is8N1 : Is8N1 f o.c_cflag after
  port_options-Is8N1 = record {
    eight = λ k h e. omega (arith, port_bit k h, bit-le-one k f.cs8);
    no_parity = λ k h e c. omega (arith, port_bit k h);
    one_stop = λ k h e c. omega (arith, port_bit k h);
    receives = λ k h e c. rw (port_bit k h, e, c) (set_stays _ _ (bit-le-one k f.cs8));
    keeps = λ k h e c.
        let size_off : bit k f.csize ≡ 0 = omega (arith, e) in
        let parity_off : bit k f.parenb ≡ 0 = omega (arith, e) in
        let stop_off : bit k f.cstopb ≡ 0 = omega (arith, e) in
        let eight_off : bit k f.cs8 ≡ 0 = omega (arith, c) in
        let on_off : max (bit k f.clocal) (bit k f.cread) ≡ 0 = omega (arith, c) in
        rw (port_bit k h, size_off, parity_off, stop_off, eight_off, on_off)
          (clear_stays _ (bit-le-one k o.c_cflag));
  }

-- A port that opens is set up with one call that changes its attributes, after the RS485 mode where it
-- is asked for, and is then flushed: to characters of 8 bits without parity and with one stop bit, and
-- a receiver that is on, whatever it was set to before, and other control flags as the speed left them.
-- cfmakeraw does what it is documented to do.
pub portsetup-Is8N1 :
    (os : PortSystem) (f : PortFlags) (use_rs485 : Bool) (fd : ℕ)
    → MakesRaw os f
    → os.opens ≡ some fd
    → (t : Termios) × (portsetup os f use_rs485 ≡ (
      some fd,
      (if use_rs485 then set_rs485 (rs485_flags f) ∷ [] else []) ++ (set_attributes t ∷ flush ∷ []),
    ))
      × Is8N1 f (os.set_9600 os.attributes).c_cflag t.c_cflag
unfolding portsetup after
portsetup-Is8N1 os f use_rs485 fd raw e =
    let o = os.set_9600 os.attributes in
    (os.cfmakeraw (port_options f o), rw (e, portsetup) refl, port_options-Is8N1 os f raw o)
