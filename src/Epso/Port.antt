-- ===== src/Epso/Port.antt =====
-- The two ways to a reader in readers/epso/epso.c: `init_tty` and `init_net`. The system calls and
-- the constants of termios.h are outside.
use osdp_roger_acs.Base.{ℕ, List, [], ◌∷◌, Option, none, some, bit_or}
use osdp_roger_acs.Door.{Text}

-- `struct termios`, which is 0 but for these fields.
pub record Term : Type 0 where
  pub c_iflag : ℕ
  pub c_cflag : ℕ
  pub vmin : ℕ
  pub vtime : ℕ

pub record TermFlags : Type 0 where
  pub ignbrk : ℕ
  pub ignpar : ℕ
  pub cread : ℕ
  pub clocal : ℕ
  pub cs8 : ℕ

pub data TtyCall : Type 0 where
  flush_input : TtyCall
  set_term : Term → TtyCall
  flush_both : TtyCall

-- `init_tty(tty_device, tty_baud_flag)`: what `open` gives is returned; the calls in their order.
unfoldable pub init_tty : Option ℕ → TermFlags → ℕ → Option ℕ × List TtyCall
init_tty none f baud = (none, [])
init_tty (some fd) f baud = (
  some fd,
  flush_input
      ∷ set_term (record {
        c_iflag = bit_or f.ignbrk f.ignpar;
        c_cflag = bit_or (bit_or (bit_or f.cread f.clocal) baud) f.cs8;
        vmin = 1;
        vtime = 0;
      })
      ∷ flush_both
      ∷ [],
)

-- `struct sockaddr_in`.
pub record NetTerm : Type 0 where
  pub sin_port : ℕ
  pub sin_addr : ℕ

-- `init_net(host, port)`: what `socket` gives is returned, whether it is connected or not, and that is
-- also what `connect` is called on, with the address.
unfoldable pub init_net : (ℕ → ℕ) → (Text → ℕ) → Option ℕ → Text → ℕ → Option ℕ × Option ℕ × NetTerm
init_net htons inet_addr socket host port =
    (socket, socket, record { sin_port = htons port; sin_addr = inet_addr host })
