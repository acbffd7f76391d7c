-- ===== src/EventSend.antt =====
-- door_controller/eventSend.h and .c: what an event writes to the log, and the command that it runs.
-- `system`, `syslog`, the thread and the socket of the log are outside.
pub mod Commands
pub mod Messages
use osdp_roger_acs.Base.{ℕ, List, [], ◌∷◌, ◌++◌, Option, none, some, Bool, false, ◌||◌, ◌&&◌}
use osdp_roger_acs.Base.{◌==◌, ltb, leb, if◌then◌else◌, length, take, ◌>>=◌}
use osdp_roger_acs.CString.{codes, dec_signed, hex_number, text_or_null}
use osdp_roger_acs.Door.{Text, Event, auth_ok, auth_err, auth_err_expire, auth_err_pin, manual_open}
use osdp_roger_acs.Door.{door_unlock, door_lock, door_is_open, door_is_close, door_is_unlock}
use osdp_roger_acs.Door.{door_is_lock, door_emergency_active, door_emergency_inactive}
use osdp_roger_acs.Door.{door_open_alarm, remote_ctrl}

abbrev pub buf_size : ℕ
buf_size = 256

-- `eventNames`. It has no entry for the last event.
unfoldable pub event_name : Event → Option Text
event_name (auth_ok door mask user card) = some (codes "auth_ok")
event_name (auth_err door user card) = some (codes "auth_err")
event_name (auth_err_expire door user card) = some (codes "auth_err_expire")
event_name (auth_err_pin door user card) = some (codes "auth_err_pin")
event_name (manual_open door) = some (codes "manual_open")
event_name (door_unlock door mask) = some (codes "door_unlock")
event_name (door_lock door mask) = some (codes "door_lock")
event_name (door_is_open door) = some (codes "door_is_open")
event_name (door_is_close door) = some (codes "door_is_close")
event_name (door_is_unlock door) = some (codes "door_is_unlock")
event_name (door_is_lock door) = some (codes "door_is_lock")
event_name (door_emergency_active door) = some (codes "door_emergency_active")
event_name (door_emergency_inactive door) = some (codes "door_emergency_inactive")
event_name (door_open_alarm door mask) = some (codes "door_open_alarm")
event_name (remote_ctrl door type action arg) = none

-- `strstr(door, "%")`.
unfoldable pub has_percent : Text → Bool
has_percent [] = false
has_percent (c ∷ s) = c == b'%' || has_percent s

abbrev mask_piece : Text → ℕ → List Text
mask_piece door mask =
    if has_percent door then (codes "&door_mask=" ++ dec_signed mask) ∷ [] else []

abbrev user_piece : Option Text → List Text
user_piece none = []
user_piece (some user) = (codes "&user=" ++ user) ∷ []

-- What each call of `snprintf` in the `switch` appends to the command.
unfoldable pub pieces : Event → List Text
pieces (auth_ok door mask user card) =
    mask_piece door mask ++ (codes "&user=" ++ (text_or_null user ++ (codes "&card=" ++ card))) ∷ []
pieces (auth_err door user card) = user_piece user ++ (codes "&card=" ++ card) ∷ []
pieces (auth_err_expire door user card) = user_piece user ++ (codes "&card=" ++ card) ∷ []
pieces (auth_err_pin door user card) = user_piece user ++ (codes "&card=" ++ card) ∷ []
pieces (door_unlock door mask) = mask_piece door mask
pieces (door_lock door mask) = mask_piece door mask
pieces (remote_ctrl door type action arg) =
    (codes "&type="
      ++ (text_or_null type
          ++ (codes "&action=" ++ (text_or_null action ++ (codes "&arg=" ++ text_or_null arg)))))
    ∷ []
pieces (manual_open door) = []
pieces (door_is_open door) = []
pieces (door_is_close door) = []
pieces (door_is_unlock door) = []
pieces (door_is_lock door) = []
pieces (door_emergency_active door) = []
pieces (door_emergency_inactive door) = []
pieces (door_open_alarm door mask) = []

abbrev denied : Text → Option Text → Text → Text → Text
denied door none card why =
    codes "ACCESS FOR " ++ (door ++ (codes " DENIED FOR: card=0x" ++ (card ++ codes "\n")))
denied door (some user) card why =
    codes "ACCESS FOR "
    ++ (door
        ++ (codes " DENIED FOR: "
            ++ (user ++ (codes " (card=0x" ++ (card ++ (codes ")" ++ (why ++ codes "\n")))))))

abbrev line_of : Text → Text → Text
line_of what door = what ++ (door ++ codes "\n")

abbrev masked : Text → Text → Text → ℕ → Text
masked what door name mask = what ++ (door ++ (name ++ (hex_number mask ++ codes ")\n")))

-- The text of `LPRINT`.
unfoldable pub log_line : Event → Text
log_line (auth_ok door mask user card) =
    codes "ACCESS FOR "
    ++ (door
        ++ (codes " (door_mask=0x"
            ++ (hex_number mask
                ++ (codes ") GRANTED FOR: "
                    ++ (text_or_null user ++ (codes " (card=0x" ++ (card ++ codes ")\n")))))))
log_line (auth_err door user card) = denied door user card []
log_line (auth_err_expire door user card) = denied door user card (codes " expire")
log_line (auth_err_pin door user card) = denied door user card (codes " invalid pin")
log_line (manual_open door) = line_of (codes "MANUAL OPEN ") door
log_line (door_unlock door mask) = masked (codes "DOOR UNLOCK ") door (codes " (door_mask=0x") mask
log_line (door_lock door mask) = masked (codes "DOOR LOCK ") door (codes " (door_mask=0x") mask
log_line (door_is_open door) = line_of (codes "DOOR IS OPEN ") door
log_line (door_is_close door) = line_of (codes "DOOR IS CLOSE ") door
log_line (door_is_unlock door) = line_of (codes "DOOR IS UNLOCK ") door
log_line (door_is_lock door) = line_of (codes "DOOR IS LOCK ") door
log_line (door_emergency_active door) = line_of (codes "DOOR EMERGENCY OPEN IS ACTIVE ") door
log_line (door_emergency_inactive door) = line_of (codes "DOOR EMERGENCY OPEN IS INACTIVE ") door
log_line (door_open_alarm door mask) =
    masked (codes "DOOR OPEN ALARM FOR ") door (codes " (mask=0x") mask
log_line (remote_ctrl door type action arg) =
    codes "REMOTE CONTROL FOR "
    ++ (text_or_null door
        ++ (codes ": "
            ++ (text_or_null type
                ++ (codes " "
                    ++ (text_or_null action ++ (codes " " ++ (text_or_null arg ++ codes "\n")))))))

unfoldable pub opening : Text → Text → Text
opening host name =
    codes "wget -q -O /dev/null 'http://" ++ (host ++ (codes "/event?type=" ++ name))

-- The command so far. Its length is `bufPos`, and `cmdBuf` holds it while that is below the size;
-- `none` is a read behind `eventNames`.
unfoldable pub first_piece : Option Text → Event → Option Text
first_piece none e = some []
first_piece (some host) e = event_name e >>= λ name. some (opening host name)

-- The calls of `snprintf` in the `switch`. Once `bufPos` is past the end, the next one gets a size
-- that is negative, and so one that is not bounded: `none`.
unfoldable pub append_pieces : Text → List Text → Option Text
append_pieces text [] = some text
append_pieces text (piece ∷ rest) =
    let appended = append_pieces (text ++ piece) rest in
    if ltb buf_size (length text) then none else appended

abbrev pub closing : Text
closing = codes "' &"

abbrev run_if : Option Text → Text → Option Text
run_if none text = none
run_if (some host) text = some text

-- What `sendEvent` writes to the log and what it runs. `none` is behaviour that C leaves undefined.
unfoldable pub send_event : Option Text → Event → Option (Option Text × Option Text)
send_event host e = first_piece host e >>= λ text.
    if leb buf_size (length text)
    then some (none, none)
    else append_pieces text (pieces e) >>= λ text₁. some (
      some (log_line e),
      if leb buf_size (length text₁)
          then none
          else if leb buf_size (length (text₁ ++ closing))
          then none
          else run_if host (text₁ ++ closing),
    )

-- `struct TCP_Message` of `remotePrintf`, without the address.
pub record TcpMessage : Type 0 where
  pub text : Text
  pub len : ℕ

-- The text of a message, as `vsnprintf` leaves it, and its length, as `vsnprintf` counts it.
unfoldable pub remote_printf : Text → TcpMessage
remote_printf line = record { text = take 255 line; len = length line }

-- An address that `getaddrinfo` gives, and what `socket`, `connect` and `send` do with it: `send`
-- fails, or takes a number of bytes.
pub record Address : Type 0 where
  pub is_stream : Bool
  pub opens : Bool
  pub connects : Bool
  pub sends : Option ℕ

-- The value that `tcpSend` returns: -1, the 0 of `getaddrinfo`, -2, or that of `send`.
pub data SendReturn : Type 0 where
  unresolved no_stream failed : SendReturn
  sent : ℕ → SendReturn

abbrev sent_or : Option ℕ → SendReturn → SendReturn
sent_or none refused = refused
sent_or (some n) refused = sent n

-- The loop over the addresses; it ends with the first that takes the message.
unfoldable pub send_to : List Address → SendReturn → SendReturn
send_to [] ret = ret
send_to (a ∷ rest) ret =
    let skipped = send_to rest ret in
    let refused = send_to rest failed in
    let tried = sent_or a.sends refused in
    if a.is_stream then (if a.opens && a.connects then tried else refused) else skipped

-- `none` is a host that was not resolved.
unfoldable pub tcp_send : Option (List Address) → SendReturn
tcp_send none = unresolved
tcp_send (some addresses) = send_to addresses no_stream
