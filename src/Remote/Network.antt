-- ===== src/Remote/Network.antt =====
-- `open_network` of door_controller/remoteControl.c: the socket of the remote control.
use osdp_roger_acs.Base.{ℕ, Option, none, some, Bool, true, false}

-- Its value: the socket, or -1, -2 or -3.
pub data Opening : Type 0 where
  no_socket : Opening
  no_option : Opening
  no_binding : Opening
  listens : ℕ → Opening

-- What `socket` gives, and whether `setsockopt` and `bind` succeed.
unfoldable pub open_network : Option ℕ → Bool → Bool → Opening
open_network none allows binds = no_socket
open_network (some sh) false binds = no_option
open_network (some sh) true false = no_binding
open_network (some sh) true true = listens sh

-- `ctrl->sh < 0`, by which `init_remote_control` goes.
unfoldable pub is_listening : Opening → Bool
is_listening (listens sh) = true
is_listening no_socket = false
is_listening no_option = false
is_listening no_binding = false
