-- ===== src/Door/Masks.antt =====
-- Which outputs `unlock_door` and `lock_door` of door_controller/door_controller.c may drive.
use osdp_roger_acs.Base.{
  ℕ, ◌+◌, ◌-◌, ◌*◌, ◌^◌, ◌≤◌, ◌<◌, ◌⊎◌, inl, inr, min, ◌≡◌, ◌∙◌, arith, bit_and, not32,
}
use osdp_roger_acs.Base.{
  bit, bit-above, bit-u32, bit-not32, bit-bit_and, bit-shift, bit-shift_below,
}
use osdp_roger_acs.Base.{bit-le-one, zero_of_bits, bit_and-le, zero-bit_and}
use native.Mathlib.Decide.{dec_lt}
use osdp_roger_acs.Door.{Door}
use osdp_roger_acs.Door.Lock.{unlock_mask, lock_mask}

-- Subdoor `k` drives output `mask_offset + k`: while that is below 32, `unlock_door` sets its bit
-- exactly if the subdoor is asked for, is one of the door's, and is neither held by the airlock
-- nor administratively disabled.
pub unlock_mask-bit :
    (d : Door) (mask k : ℕ)
    → d.mask_offset + k < 32
    → bit (d.mask_offset + k) (unlock_mask d mask)
      ≡ min
          (min (min (bit k mask) (bit k d.mask_full)) (1 - bit k d.air_lock_mask))
          (1 - bit k d.adm_disable_mask)
unfolding unlock_mask
unlock_mask-bit d mask k h =
    let wanted = bit_and (bit_and mask d.mask_full) (not32 d.air_lock_mask) in
    omega (
      arith,
      bit-u32 (d.mask_offset + k) (bit_and wanted (not32 d.adm_disable_mask) * 2 ^ d.mask_offset) h,
      bit-shift d.mask_offset k (bit_and wanted (not32 d.adm_disable_mask)),
      bit-bit_and k wanted (not32 d.adm_disable_mask),
      bit-bit_and k (bit_and mask d.mask_full) (not32 d.air_lock_mask),
      bit-bit_and k mask d.mask_full,
      bit-not32 k d.air_lock_mask (omega arith),
      bit-not32 k d.adm_disable_mask (omega arith),
    )

-- The bit of output `mask_offset + k`, while that is below 32, is set by `lock_door` exactly if
-- the subdoor is asked for, is one of the door's and is not administratively disabled; the airlock
-- does not count.
pub lock_mask-bit :
    (d : Door) (mask k : ℕ)
    → d.mask_offset + k < 32
    → bit (d.mask_offset + k) (lock_mask d mask)
      ≡ min (min (bit k mask) (bit k d.mask_full)) (1 - bit k d.adm_disable_mask)
unfolding lock_mask
lock_mask-bit d mask k h =
    let wanted = bit_and mask d.mask_full in
    omega (
      arith,
      bit-u32 (d.mask_offset + k) (bit_and wanted (not32 d.adm_disable_mask) * 2 ^ d.mask_offset) h,
      bit-shift d.mask_offset k (bit_and wanted (not32 d.adm_disable_mask)),
      bit-bit_and k wanted (not32 d.adm_disable_mask),
      bit-bit_and k mask d.mask_full,
      bit-not32 k d.adm_disable_mask (omega arith),
    )

-- The outputs of the doors below this one in the word are never driven.
pub unlock_mask-below :
    (d : Door) (mask k : ℕ) → k < d.mask_offset → k < 32 → bit k (unlock_mask d mask) ≡ 0
unfolding unlock_mask
unlock_mask-below d mask k h fits = bit-u32 k _ fits ∙ bit-shift_below d.mask_offset k _ h

-- No output below the first of the door, nor above the word.
pub unlock_mask-outside :
    (d : Door) (mask k : ℕ) → (k < d.mask_offset) ⊎ (32 ≤ k) → bit k (unlock_mask d mask) ≡ 0
unfolding unlock_mask
unlock_mask-outside d mask k outside = elim (dec_lt k 32) [
  | yes low ↦ elim outside [
    | inl below ↦ unlock_mask-below d mask k below low
    | inr high ↦ absurd (omega arith)
  ]
  | no high ↦ bit-above 32 k _ (omega arith) (omega arith)
]

-- A door whose subdoors are all blocked has nothing to unlock.
pub unlock_mask-blocked :
    (d : Door) (mask : ℕ)
    → d.mask_full < 2 ^ 32
    → ((k : ℕ) → k < 32 → bit k d.mask_full ≤ bit k d.air_lock_mask)
    → unlock_mask d mask ≡ 0
unfolding unlock_mask
unlock_mask-blocked d mask fits blocked =
    let wanted = bit_and (bit_and mask d.mask_full) (not32 d.air_lock_mask) in
    let none_left : wanted ≡ 0 =
      zero_of_bits 32 wanted
        (omega (
          arith,
          bit_and-le (bit_and mask d.mask_full) (not32 d.air_lock_mask),
          bit_and-le mask d.mask_full,
        ))
        (λ k lt. omega (
          arith,
          blocked k lt,
          bit-bit_and k (bit_and mask d.mask_full) (not32 d.air_lock_mask),
          bit-bit_and k mask d.mask_full,
          bit-not32 k d.air_lock_mask lt,
          bit-le-one k d.mask_full,
          bit-le-one k d.air_lock_mask,
        )) in
    rw (none_left, zero-bit_and) (omega arith)
