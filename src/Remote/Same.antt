-- ===== src/Remote/Same.antt =====
-- What door_controller/remoteControl.c leaves alone of a door.
use osdp_roger_acs.Base.{ℕ, ◌≡◌, arith}
use osdp_roger_acs.Base.{}
use osdp_roger_acs.Door.{Door, World}
use osdp_roger_acs.Remote.{}
use osdp_roger_acs.Remote.{}

-- Two doors that differ at most in the lock timer and the masks that block them.
pub record SameButMasks (d e : Door) : Type 0 where
  pub same_name : e.door_name ≡ d.door_name
  pub same_a : e.reader_a ≡ d.reader_a
  pub same_b : e.reader_b ≡ d.reader_b
  pub same_input : e.last_input ≡ d.last_input
  pub same_alarm : e.alarm_timers ≡ d.alarm_timers
  pub same_offset : e.mask_offset ≡ d.mask_offset
  pub same_full : e.mask_full ≡ d.mask_full
  pub same_partner : e.air_lock_partner_local ≡ d.air_lock_partner_local

-- All doors are such.
pub record SameDoors (w w' : World) : Type 0 where
  pub same : (j : ℕ) → SameButMasks (w.doors j) (w'.doors j)

pub SameDoors-refl : (w : World) → SameDoors w w
SameDoors-refl w = record { same = λ j. ground arith }

pub SameDoors-trans : (u v w : World) → SameDoors u v → SameDoors v w → SameDoors u w
SameDoors-trans u v w a b = record { same = λ j. ground (arith, a.same j, b.same j) }
