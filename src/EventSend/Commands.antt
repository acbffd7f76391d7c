-- ===== src/EventSend/Commands.antt =====
-- The command that `sendEvent` of door_controller/eventSend.c runs for an event.
use osdp_roger_acs.Base.{
  ◌+◌, ◌<◌, ◌≤◌, ◌≡◌, refl, sym, ap, ◌∙◌, inl, inr, arith, List, [], ◌∷◌, ◌++◌,
}
use osdp_roger_acs.Base.{
  Option, none, some, Bool-cases, false, if◌then◌else◌, ltb, leb, length, length-append,
}
use osdp_roger_acs.CString.{codes, dec_signed, text_or_null}
use osdp_roger_acs.Base.{ℕ, suc, ◌==◌}
use osdp_roger_acs.Door.{
  Text, Event, auth_ok, auth_err, auth_err_expire, auth_err_pin, manual_open, door_unlock,
  door_lock, door_is_open, door_is_close, door_is_unlock, door_is_lock, door_emergency_active,
  door_emergency_inactive, door_open_alarm, remote_ctrl,
}
use osdp_roger_acs.EventSend.{
  has_percent, mask_piece, user_piece, event_name, pieces, log_line, first_piece, append_pieces,
  closing, opening, send_event, buf_size,
}

-- All pieces, one after the other.
unfoldable pub joined : List Text → Text
joined [] = []
joined (p ∷ ps) = p ++ joined ps

-- How many percent signs a text has.
abbrev percents : Text → ℕ
percents [] = 0
percents (c ∷ s) = if c == b'%' then suc (percents s) else percents s

-- The mask of a door that has subdoors, the name of a user that is known, and a card.
abbrev mask_argument : Text → ℕ → Text
mask_argument door mask =
    if ltb 0 (percents door) then codes "&door_mask=" ++ dec_signed mask else []

abbrev refused_argument : Option Text → Text → Text
refused_argument none card = codes "&card=" ++ card
refused_argument (some user) card = codes "&user=" ++ (user ++ (codes "&card=" ++ card))

-- What the event host is told of an event besides its name: never the name of the door, nor the mask
-- of an alarm.
unfoldable pub arguments : Event → Text
arguments (auth_ok door mask user card) =
    mask_argument door mask ++ (codes "&user=" ++ (text_or_null user ++ (codes "&card=" ++ card)))
arguments (auth_err door user card) = refused_argument user card
arguments (auth_err_expire door user card) = refused_argument user card
arguments (auth_err_pin door user card) = refused_argument user card
arguments (door_unlock door mask) = mask_argument door mask
arguments (door_lock door mask) = mask_argument door mask
arguments (remote_ctrl door type action arg) =
    codes "&type="
    ++ (text_or_null type
        ++ (codes "&action=" ++ (text_or_null action ++ (codes "&arg=" ++ text_or_null arg))))
arguments (manual_open door) = []
arguments (door_is_open door) = []
arguments (door_is_close door) = []
arguments (door_is_unlock door) = []
arguments (door_is_lock door) = []
arguments (door_emergency_active door) = []
arguments (door_emergency_inactive door) = []
arguments (door_open_alarm door mask) = []

-- The command for an event, with no bound on its length.
unfoldable pub command_for : Text → Text → Event → Text
command_for host name e =
    codes "wget -q -O /dev/null 'http://"
    ++ (host ++ (codes "/event?type=" ++ (name ++ (arguments e ++ codes "' &"))))

append_assoc : (s t u : Text) → (s ++ t) ++ u ≡ s ++ (t ++ u)
append_assoc [] t u = refl
append_assoc (c ∷ s) t u = ap (◌∷◌ c) (append_assoc s t u)

append-nil : (s : Text) → s ++ [] ≡ s
append-nil [] = refl
append-nil (c ∷ s) = ap (◌∷◌ c) (append-nil s)

has_percent-percents : (s : Text) → has_percent s ≡ ltb 0 (percents s)
unfolding has_percent
has_percent-percents [] = refl
has_percent-percents (c ∷ s) = ground (arith, has_percent-percents s)

mask_piece-joined :
    (door : Text) (mask : ℕ) (ps : List Text)
    → joined (mask_piece door mask ++ ps) ≡ mask_argument door mask ++ joined ps
unfolding joined
mask_piece-joined door mask ps =
    let same = has_percent-percents door in
    elim (Bool-cases (ltb 0 (percents door))) [
      | inl e ↦ rw (same, e) refl
      | inr e ↦ rw (same, e) refl
    ]

mask_piece-alone :
    (door : Text) (mask : ℕ) → joined (mask_piece door mask) ≡ mask_argument door mask
unfolding joined
mask_piece-alone door mask =
    let same = has_percent-percents door in
    elim (Bool-cases (ltb 0 (percents door))) [
      | inl e ↦ rw (same, e) (append-nil _)
      | inr e ↦ rw (same, e) refl
    ]

refused-joined :
    (user : Option Text) (card : Text)
    → joined (user_piece user ++ (codes "&card=" ++ card) ∷ []) ≡ refused_argument user card
unfolding joined
refused-joined none card = append-nil (codes "&card=" ++ card)
refused-joined (some user) card = rw (append-nil card) refl

-- The pieces are the arguments.
pieces-arguments : (e : Event) → joined (pieces e) ≡ arguments e
unfolding pieces arguments joined
pieces-arguments (auth_ok door mask user card) =
    mask_piece-joined door mask _ ∙ ap (◌++◌ (mask_argument door mask)) (append-nil _)
pieces-arguments (auth_err door user card) = refused-joined user card
pieces-arguments (auth_err_expire door user card) = refused-joined user card
pieces-arguments (auth_err_pin door user card) = refused-joined user card
pieces-arguments (door_unlock door mask) = mask_piece-alone door mask
pieces-arguments (door_lock door mask) = mask_piece-alone door mask
pieces-arguments (remote_ctrl door type action arg) = append-nil _
pieces-arguments (manual_open door) = refl
pieces-arguments (door_is_open door) = refl
pieces-arguments (door_is_close door) = refl
pieces-arguments (door_is_unlock door) = refl
pieces-arguments (door_is_lock door) = refl
pieces-arguments (door_emergency_active door) = refl
pieces-arguments (door_emergency_inactive door) = refl
pieces-arguments (door_open_alarm door mask) = refl

-- The command as it is put together.
command_for-pieces :
    (host name : Text) (e : Event)
    → command_for host name e ≡ opening host name ++ (joined (pieces e) ++ closing)
unfolding command_for opening
command_for-pieces host name e =
    let front = codes "wget -q -O /dev/null 'http://" in
    rw (pieces-arguments e) (
      ap (◌++◌ front)
        (sym (append_assoc host (codes "/event?type=" ++ name) (arguments e ++ closing))))

-- What fits is appended.
append_pieces-fits :
    (text : Text) (ps : List Text)
    → length text + length (joined ps) ≤ 256
    → append_pieces text ps ≡ some (text ++ joined ps)
unfolding append_pieces joined
append_pieces-fits text [] h = ap some (sym (append-nil text))
append_pieces-fits text (p ∷ ps) h =
    let both = length-append {0} text p in
    let after = length-append {0} p (joined ps) in
    elim (Bool-cases (ltb buf_size (length text))) [
      | inl e ↦ absurd (ground arith)
      | inr e ↦ rw e (
          append_pieces-fits (text ++ p) ps (omega (arith, both, after))
          ∙ ap some (append_assoc text p (joined ps)))
    ]

abbrev second : Option (Option Text × Option Text) → Option Text
second none = none
second (some (log, cmd)) = cmd

-- An event whose command has less than 256 bytes is written to the log and its command is run, if
-- the event has a name.
pub send_event-runs :
    (host name : Text) (e : Event)
    → event_name e ≡ some name
    → length (command_for host name e) < 256
    → send_event (some host) e ≡ some (some (log_line e), some (command_for host name e))
unfolding send_event first_piece
send_event-runs host name e named short =
    let same = command_for-pieces host name e in
    let fits = rw same at short in
    let start = opening host name in
    let args = joined (pieces e) in
    let a = length-append {0} start (args ++ closing) in
    let b = length-append {0} args closing in
    let c = length-append {0} start args in
    let whole = append_assoc start args closing in
    let text₁ : append_pieces start (pieces e) ≡ some (start ++ args) =
      append_pieces-fits start (pieces e) (omega (arith, a, b, fits)) in
    let first_fits : leb buf_size (length start) ≡ false = ground (arith, a, fits) in
    let second_fits : leb buf_size (length (start ++ args)) ≡ false =
      ground (arith, a, b, c, fits) in
    let third_fits : leb buf_size (length (start ++ (args ++ closing))) ≡ false =
      ground (arith, fits) in
    rw (named, first_fits, same) (rw text₁ (rw second_fits (rw whole (rw third_fits refl))))
