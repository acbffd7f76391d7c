-- ===== src/Remote/Logs.antt =====
-- The answers in the log of what door_controller/remoteControl.c sends: its calls of the doors send none.
use osdp_roger_acs.Base.{ℕ, ◌≡◌, refl, inl, inr, Option, none, some, arith}
use osdp_roger_acs.Base.{Option-cases, Bool-cases, ◌∙◌, List, [], ◌∷◌}
use osdp_roger_acs.Base.{◌==◌, all_ones}
use osdp_roger_acs.Reader.{Signal, blocked, unblocked, door_open}
use osdp_roger_acs.Reader
use osdp_roger_acs.Door.{Text, World, Effect}
use osdp_roger_acs.Door.{door_state, signal, clear, null_reader, event, reply}
use osdp_roger_acs.Door.Lock.{door_signal, signal_door_status, set_air_lock, air_lock_on_partner}
use osdp_roger_acs.Door.Lock.{unlock_door, lock_door, start_lock_timer, unlock_mask, lock_mask}
use osdp_roger_acs.Remote.{}

-- The answers in a log.
unfoldable pub replies : List Effect → List Text
replies [] = []
replies (reply t ∷ l) = t ∷ replies l
replies (door_state op m ∷ l) = replies l
replies (signal s r ∷ l) = replies l
replies (clear r ∷ l) = replies l
replies (null_reader ∷ l) = replies l
replies (event e ∷ l) = replies l

replies-door_signal :
    (i : ℕ) (s : Signal) (w : World) → replies (door_signal i s w).log ≡ replies w.log
unfolding door_signal replies
replies-door_signal i s w = ground arith

pub replies-signal_door_status :
    (i : ℕ) (w : World) → replies (signal_door_status i w).log ≡ replies w.log
unfolding signal_door_status
replies-signal_door_status i w =
    ground (arith, replies-door_signal i blocked w, replies-door_signal i unblocked w)

replies-set_air_lock :
    (p : ℕ) (m : Option ℕ) (w : World) → replies (set_air_lock p m w).log ≡ replies w.log
unfolding set_air_lock
replies-set_air_lock p none w = refl
replies-set_air_lock p (some m) w = refl

replies-air_lock_on_partner :
    (i mask : ℕ) (w : World) → replies (air_lock_on_partner i mask w).log ≡ replies w.log
unfolding air_lock_on_partner
replies-air_lock_on_partner i mask w = elim (Option-cases (w.doors i).air_lock_partner_local) [
  | inl e ↦ rw (e, air_lock_on_partner)
  | inr (p, e) ↦
      rw (e, air_lock_on_partner) (replies-signal_door_status i _ ∙ replies-set_air_lock p _ w)
]

pub replies-unlock_door :
    (i mask : ℕ) (w : World) → replies (unlock_door i mask w).1.log ≡ replies w.log
unfolding unlock_door replies start_lock_timer
replies-unlock_door i mask w = elim (Bool-cases (unlock_mask (w.doors i) mask == 0)) [
  | inl e ↦ rw e
  | inr e ↦ rw e (replies-door_signal i door_open _ ∙ replies-air_lock_on_partner i all_ones w)
]

pub replies-lock_door :
    (i mask : ℕ) (w : World) → replies (lock_door i mask w).1.log ≡ replies w.log
unfolding lock_door replies
replies-lock_door i mask w = elim (Bool-cases (lock_mask (w.doors i) mask == 0)) [
  | inl e ↦ rw e
  | inr e ↦
      rw e (replies-door_signal i Reader.Signal.door_lock _ ∙ replies-air_lock_on_partner i 0 _)
]
