-- ===== src/Examples/Doors.antt =====
-- The doors of door_controller/door_controller.c and the lines of gpios/gpio-orangepizero.c.
use osdp_roger_acs.Base.{List}
use osdp_roger_acs.Door.{World}
use osdp_roger_acs.Base.{ℕ, zero, suc, ◌≡◌, ◌≢◌, refl, arith, inl, ◌∷◌, some}
use osdp_roger_acs.Base.{iterate, not32}
use osdp_roger_acs.Door.{DoorOperation}
use osdp_roger_acs.Door.Lock.{unlock_mask, unlock_door}
use osdp_roger_acs.Door.Interlock.{Interlocked}
use osdp_roger_acs.Door.Airlock.{interlock}
use osdp_roger_acs.Door.Loop.{lock_timer_tick}
use osdp_roger_acs.Door.Grants.{outputs}
use osdp_roger_acs.Examples.Data.{building, airlock}

only_one : (j : ℕ) → (airlock j).air_lock_partner_local ≡ some 1 → j ≡ 0
only_one zero h = refl
only_one (suc zero) h = absurd (ground arith)
only_one (suc (suc j)) h = absurd (ground arith)

only_zero : (j : ℕ) → (airlock j).air_lock_partner_local ≡ some 0 → j ≡ 1
only_zero zero h = absurd (ground arith)
only_zero (suc zero) h = refl
only_zero (suc (suc j)) h = absurd (ground arith)

pub building-Interlocked : Interlocked 0 1 building.doors
building-Interlocked = record {
  paired = record {
    apart = omega arith;
    partner_i = refl;
    partner_p = refl;
    only_i = only_one;
    only_p = only_zero;
    fits_i = omega arith;
    fits_p = omega arith;
  };
  exclusive = record {
    holds_e = λ h. absurd (omega arith);
    holds_d = λ h. absurd (omega arith);
    one_unlocked = inl refl;
  };
}

unlocks_one : unlock_mask (building.doors 0) 1 ≡ 1
unfolding unlock_mask not32
unlocks_one = refl

unlocks : unlock_mask (building.doors 0) 1 ≢ 0
unlocks h = omega (arith, unlocks_one, h)

interlock_example : unlock_door 1 1 (unlock_door 0 1 building).1 ≡ (0, (unlock_door 0 1 building).1)
interlock_example = interlock 0 1 1 1 building refl (omega arith) unlocks

abbrev after_unlock : ℕ → World
after_unlock k = iterate k (lock_timer_tick 0) (unlock_door 0 1 building).1

abbrev driven_once : List (DoorOperation × ℕ)
driven_once = (DoorOperation.do_unlock, unlock_mask (building.doors 0) 1) ∷ outputs building.log
