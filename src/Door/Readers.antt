-- ===== src/Door/Readers.antt =====
-- The readers of the doors, of which door_controller/door_controller.c changes one at a time.
use osdp_roger_acs.Base.{ℕ, ◌≡◌, refl, inl, inr, arith}
use osdp_roger_acs.Base.{◌==◌, Option, none, some}
use osdp_roger_acs.Base.{Bool-cases}
use osdp_roger_acs.Reader.{Signal}
use osdp_roger_acs.Door.{Door, DoorReader, World, Side, side_a, side_b, door_reader}
use osdp_roger_acs.Door.{put_reader, set_door_reader}
use osdp_roger_acs.Door.Lock.{unlock_door}
use osdp_roger_acs.Door.Auth.{signal_reader, clear_reader_data}
use osdp_roger_acs.Door.Auth.{}
use osdp_roger_acs.Door.Frame.{unlock_door-SameButLock}

-- `unlock_door` leaves the readers.
pub reader-unlock_door :
    (side : Side) (i mask : ℕ) (w : World) (j : ℕ)
    → door_reader side ((unlock_door i mask w).1.doors j) ≡ door_reader side (w.doors j)
reader-unlock_door side_a i mask w j = (unlock_door-SameButLock i mask w j).same_a
reader-unlock_door side_b i mask w j = (unlock_door-SameButLock i mask w j).same_b

pub reader-put_reader_self :
    (side : Side) (i : ℕ) (r : DoorReader) (w : World)
    → door_reader side ((put_reader i side r w).doors i) ≡ r
reader-put_reader_self side_a i r w = ground arith
reader-put_reader_self side_b i r w = ground arith

reader-put_reader_ne :
    (side s : Side) (i j : ℕ) (r : DoorReader) (w : World)
    → ((s ≡ side) × (j ≡ i) → ⊥)
    → door_reader s ((put_reader i side r w).doors j) ≡ door_reader s (w.doors j)
reader-put_reader_ne side_a side_a i j r w ne = ground (arith, λ (e : j ≡ i). ne (refl, e))
reader-put_reader_ne side_a side_b i j r w ne = ground arith
reader-put_reader_ne side_b side_a i j r w ne = ground arith
reader-put_reader_ne side_b side_b i j r w ne = ground (arith, λ (e : j ≡ i). ne (refl, e))

-- All readers of all doors have the property `P`.
abbrev pub AllReaders {ℓ} : (DoorReader → Type ℓ) → World → Type ℓ
AllReaders P w = (s : Side) (j : ℕ) → P (door_reader s (w.doors j))

-- All but the reader on one side of one door.
abbrev OtherReaders {ℓ} : (DoorReader → Type ℓ) → Side → ℕ → World → Type ℓ
OtherReaders P side i w =
    (s : Side) (j : ℕ) → ((s ≡ side) × (j ≡ i) → ⊥) → P (door_reader s (w.doors j))

module _ {ℓ} (P : DoorReader → Type ℓ) (i : ℕ) where
  set_reader-All :
      (side s : Side) (r : DoorReader) (d : Door)
      → P r
      → (((s ≡ side) → ⊥) → P (door_reader s d))
      → P (door_reader s (set_door_reader side r d))
  set_reader-All side_a side_a r d new old = new
  set_reader-All side_a side_b r d new old = old (λ e. cc)
  set_reader-All side_b side_a r d new old = old (λ e. cc)
  set_reader-All side_b side_b r d new old = new

  pub put_reader-All :
      (side : Side) (r : DoorReader) (w : World)
      → P r
      → OtherReaders P side i w
      → AllReaders P (put_reader i side r w)
  put_reader-All side r w new old s j = elim (Bool-cases (j == i)) [
    | inl e ↦ rw e (set_reader-All side s r (w.doors i) new (λ ne. old s i (λ both. ne both.0)))
    | inr e ↦ rw e (old s j (λ both. ground arith))
  ]

  pub put_reader-Other :
      (side : Side) (r : DoorReader) (w : World)
      → OtherReaders P side i w
      → OtherReaders P side i (put_reader i side r w)
  put_reader-Other side r w old s j ne = rw (reader-put_reader_ne side s i j r w ne) (old s j ne)

  pub unlock_door-Other :
      (side : Side) (mask : ℕ) (w : World)
      → OtherReaders P side i w
      → OtherReaders P side i (unlock_door i mask w).1
  unlock_door-Other side mask w old s j ne = rw (reader-unlock_door s i mask w j) (old s j ne)

pub doors-signal_reader :
    (s : Signal) (r : Option ℕ) (w : World) → (signal_reader s r w).doors ≡ w.doors
doors-signal_reader s none w = refl
doors-signal_reader s (some r) w = refl

pub doors-clear_reader_data : (r : Option ℕ) (w : World) → (clear_reader_data r w).doors ≡ w.doors
doors-clear_reader_data none w = refl
doors-clear_reader_data (some r) w = refl
