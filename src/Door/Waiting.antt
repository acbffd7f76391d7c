-- ===== src/Door/Waiting.antt =====
-- The two-factor timer and the alarm timer of door_controller/door_controller.c over rounds.
use osdp_roger_acs.Base.{ℕ, zero, suc, ◌-◌, ◌≤◌, ◌<◌, true, false, ◌≡◌, refl, ap, ◌∙◌, ◌≢◌}
use osdp_roger_acs.Base.{inl, inr, arith, iterate, ◌∷◌, Bool-cases}
use osdp_roger_acs.Base.{◌==◌, truth, ltb, if◌then◌else◌}
use osdp_roger_acs.Base.{◌+◌, ◌*◌, ◌⊎◌, bit, ==_iff, all_below, all_below-holds}
use osdp_roger_acs.Reader.{err_usage, pin_quiet}
use osdp_roger_acs.Door.{World, event, Side}
use osdp_roger_acs.Door.{door_reader, door_open_alarm, DoorReader, put_reader, put_door}
use osdp_roger_acs.Door.Inputs.{check_alarm, alarm_mask}
use osdp_roger_acs.Door.Auth.{two_factor_tick, reset_auth, reset_door_auth}
use osdp_roger_acs.Door.Readers.{doors-signal_reader, doors-clear_reader_data}
use osdp_roger_acs.Door.Readers.{reader-put_reader_self}

-- What a tick leaves of the reader.
abbrev pub after_tick : DoorReader → DoorReader
after_tick r =
    if ltb 1 r.two_factor_timer
    then record r { two_factor_timer = r.two_factor_timer - 1 }
    else if ltb 0 r.two_factor_timer
    then reset_auth r
    else r

reader-two_factor_tick :
    (i : ℕ) (side : Side) (w : World)
    → door_reader side ((two_factor_tick i side w).doors i)
      ≡ after_tick (door_reader side (w.doors i))
unfolding two_factor_tick reset_door_auth
reader-two_factor_tick i side w =
    let r = door_reader side (w.doors i) in
    let counted = record r { two_factor_timer = r.two_factor_timer - 1 } in
    let w' = put_reader i side counted w in
    let same = reader-put_reader_self side i counted w in
    elim (Bool-cases (ltb 0 r.two_factor_timer)) [
      | inl e ↦ elim (Bool-cases (r.two_factor_timer - 1 == 0)) [
        | inl t ↦
            let last : ltb 1 r.two_factor_timer ≡ false = ground arith in
            rw (e, two_factor_tick)
              (rw (t, two_factor_tick)
                (rw (doors-signal_reader err_usage r.reader _, doors-clear_reader_data r.reader _)
                  (reader-put_reader_self side i _ w' ∙ ap reset_auth same ∙ rw last refl)))
        | inr t ↦
            let running : ltb 1 r.two_factor_timer ≡ true = ground arith in
            rw (e, two_factor_tick)
              (rw (t, two_factor_tick)
                (rw (doors-signal_reader pin_quiet r.reader _) (rw running same)))
      ]
      | inr e ↦
          let off : ltb 1 r.two_factor_timer ≡ false = ground arith in
          rw (e, two_factor_tick) (rw off)
    ]

reader-iterate :
    (n i : ℕ) (side : Side) (w : World)
    → door_reader side ((iterate n (two_factor_tick i side) w).doors i)
      ≡ iterate n after_tick (door_reader side (w.doors i))
reader-iterate zero i side w = refl
reader-iterate (suc n) i side w =
    reader-iterate n i side (two_factor_tick i side w)
    ∙ ap (iterate n after_tick) (reader-two_factor_tick i side w)

after_tick-running :
    (r : DoorReader)
    → 1 < r.two_factor_timer
    → after_tick r ≡ record r { two_factor_timer = r.two_factor_timer - 1 }
after_tick-running r h = ground arith

after_ticks-running :
    (k : ℕ) (r : DoorReader)
    → k < r.two_factor_timer
    → iterate k after_tick r ≡ record r { two_factor_timer = r.two_factor_timer - k }
after_ticks-running zero r h = ground arith
after_ticks-running (suc k) r h =
    ap (iterate k after_tick) (after_tick-running r (omega arith))
    ∙ after_ticks-running k (record r { two_factor_timer = r.two_factor_timer - 1 }) (omega arith)
    ∙ ap (λ (t : ℕ). record r { two_factor_timer = t }) (omega arith)

after_ticks-end :
    (n : ℕ) (r : DoorReader)
    → r.two_factor_timer ≡ suc n
    → iterate (suc n) after_tick r ≡ reset_auth r
after_ticks-end zero r e = ground arith
after_ticks-end (suc n) r e =
    ap (iterate (suc n) after_tick) (after_tick-running r (omega arith))
    ∙ after_ticks-end n (record r { two_factor_timer = r.two_factor_timer - 1 }) (omega arith)

-- While the two-factor timer runs, ticks keep the credentials, and only the timer changes, by
-- their number.
pub two_factor_waits :
    (k i : ℕ) (side : Side) (w : World)
    → k < (door_reader side (w.doors i)).two_factor_timer
    → let r = door_reader side (w.doors i) in
      door_reader side ((iterate k (two_factor_tick i side) w).doors i)
      ≡ record r { two_factor_timer = r.two_factor_timer - k }
two_factor_waits k i side w h =
    reader-iterate k i side w ∙ after_ticks-running k (door_reader side (w.doors i)) h

-- The two-factor timer keeps the credentials as long as it runs, and forgets them when it ends: after
-- fewer ticks than it had left only the timer has changed, by their number, and after as many the
-- reader has no card and no PIN, and does not wait.
pub two_factor_expires :
    (k n i : ℕ) (side : Side) (w : World)
    → (door_reader side (w.doors i)).two_factor_timer ≡ suc n
    → k ≤ n
    → let r = door_reader side (w.doors i) in
      let after : ℕ → DoorReader =
        λ k. door_reader side ((iterate k (two_factor_tick i side) w).doors i) in
      (after k ≡ record r { two_factor_timer = suc n - k })
      × ((after (suc n)).card_len ≡ 0)
      × ((after (suc n)).pin_len ≡ 0)
      × ((after (suc n)).two_factor_timer ≡ 0)
two_factor_expires k n i side w e small =
    let r = door_reader side (w.doors i) in
    let last = reader-iterate (suc n) i side w ∙ after_ticks-end n r e in
    (
      two_factor_waits k i side w (omega arith)
          ∙ ap (λ (t : ℕ). record r { two_factor_timer = t }) (omega arith),
      ap (λ (x : DoorReader). x.card_len) last,
      ap (λ (x : DoorReader). x.pin_len) last,
      ap (λ (x : DoorReader). x.two_factor_timer) last,
    )

check_alarm-running :
    (i input : ℕ) (w : World)
    → alarm_mask input ≢ 0
    → 1 < (w.doors i).alarm_timers
    → check_alarm i input w
      ≡ put_door i (record (w.doors i) { alarm_timers = (w.doors i).alarm_timers - 1 }) w
unfolding check_alarm
check_alarm-running i input w a h =
    let on : truth (alarm_mask input) ≡ true = ground arith in
    let started : ((w.doors i).alarm_timers == 0) ≡ false = ground arith in
    let more : ((w.doors i).alarm_timers - 1 == 0) ≡ false = ground arith in
    rw (on, check_alarm) (rw (started, check_alarm) (rw more))

alarm-waits :
    (k i input : ℕ) (w : World)
    → alarm_mask input ≢ 0
    → k < (w.doors i).alarm_timers
    → let w' = iterate k (check_alarm i input) w in
      (w'.log ≡ w.log) × ((w'.doors i).alarm_timers ≡ (w.doors i).alarm_timers - k)
alarm-waits zero i input w a h = (refl, omega arith)
alarm-waits (suc k) i input w a h =
    let counted =
      put_door i (record (w.doors i) { alarm_timers = (w.doors i).alarm_timers - 1 }) w in
    let timer : (counted.doors i).alarm_timers ≡ (w.doors i).alarm_timers - 1 = ground arith in
    let (same, left) = alarm-waits k i input counted a (omega (arith, timer)) in
    rw (check_alarm-running i input w a (omega arith), iterate) (same, omega (arith, left, timer))

alarm-sends :
    (n i input : ℕ) (w : World)
    → alarm_mask input ≢ 0
    → (w.doors i).alarm_timers ≡ suc n
    → let w' = iterate (suc n) (check_alarm i input) w in
      (w'.log ≡ event (door_open_alarm (w.doors i).door_name (alarm_mask input)) ∷ w.log)
      × ((w'.doors i).alarm_timers ≡ 60)
unfolding check_alarm
alarm-sends zero i input w a e = ground arith
alarm-sends (suc n) i input w a e =
    let counted =
      put_door i (record (w.doors i) { alarm_timers = (w.doors i).alarm_timers - 1 }) w in
    let more = check_alarm-running i input w a (omega arith) in
    let ih = alarm-sends n i input counted a (ground arith) in
    let rest = ap (iterate (suc n) (check_alarm i input)) more in
    (
      ap (λ (w' : World). w'.log) rest ∙ ih.0 ∙ ground arith,
      ap (λ (w' : World). (w'.doors i).alarm_timers) rest ∙ ih.1,
    )

-- The inputs that show an alarm, as their bits: 1 for an emergency, and 2 for a door that is not closed.
abbrev pub alarm_of : ℕ → ℕ
alarm_of input = bit 1 input * 2 + (1 - bit 2 input) * 4

alarms : all_below 256 (λ input. alarm_mask input == alarm_of input) ≡ true
unfolding all_below alarm_mask
alarms = refl

alarm_mask-eq : (input : ℕ) → input < 256 → alarm_mask input ≡ alarm_of input
alarm_mask-eq input h = (==_iff _ _).0 (all_below-holds 256 _ input alarms h)

-- While the inputs show an emergency or a door that is not closed, a timer at `n + 1` sends nothing in
-- the next `n` rounds, and counts them; the round after that sends one alarm event, with the bits of
-- these inputs, and sets the timer to 60.
pub alarm_repeats :
    (k n i input : ℕ) (w : World)
    → input < 256
    → (bit 1 input ≡ 1) ⊎ (bit 2 input ≡ 0)
    → (w.doors i).alarm_timers ≡ suc n
    → k ≤ n
    → let after : ℕ → World = λ k. iterate k (check_alarm i input) w in
      ((after k).log ≡ w.log)
      × (((after k).doors i).alarm_timers ≡ suc n - k)
      × ((after (suc n)).log
          ≡ event (door_open_alarm (w.doors i).door_name (alarm_of input)) ∷ w.log)
      × (((after (suc n)).doors i).alarm_timers ≡ 60)
alarm_repeats k n i input w byte shown e small =
    let mask = alarm_mask-eq input byte in
    let on : alarm_mask input ≢ 0 = λ z. absurd (ground (arith, mask, z, shown)) in
    let (same, left) = alarm-waits k i input w on (omega arith) in
    let (sent, again) = alarm-sends n i input w on e in
    (same, omega (arith, left), rw mask at sent, again)
