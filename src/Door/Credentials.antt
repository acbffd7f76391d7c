-- ===== src/Door/Credentials.antt =====
-- The credentials that `process_user_info` and `two_factor_timer` of
-- door_controller/door_controller.c keep in a `DoorReader` between two calls.
use osdp_roger_acs.Base.{ℕ, ◌-◌, ◌≤◌, ◌≡◌, refl, ◌≢◌, inl, inr, arith, length}
use osdp_roger_acs.Base.{length-memcpy, length-set, truth, ◌==◌}
use osdp_roger_acs.Base.{Bool-cases, memcpy, ltb, ◌++◌}
use osdp_roger_acs.Reader.{err_usage, pin_quiet, UserInfo}
use osdp_roger_acs.Door.{DoorReader, Text, World, Side, side_a, side_b, door_reader}
use osdp_roger_acs.Door.{put_reader}
use osdp_roger_acs.Door.Lock.{unlock_door}
use osdp_roger_acs.Door.Auth.{UserDb, Stored, stored, refused_data, refused_usage, reset_auth}
use osdp_roger_acs.Door.Auth.{store_input, Checked, check_access, conclude, continue_with}
use osdp_roger_acs.Door.Auth.{
  process_side, two_factor_tick, process_user_info, is_reader, mode_two_cards, reset_door_auth,
}
use osdp_roger_acs.Door.Readers.{
  reader-unlock_door, reader-put_reader_self, AllReaders, put_reader-All, put_reader-Other,
  unlock_door-Other, doors-signal_reader, doors-clear_reader_data,
}

-- The buffers have the sizes that they are declared with, and the lengths fit them.
pub record Fits (r : DoorReader) : Type 0 where
  pub card_size : length r.card ≡ 16
  pub card2_size : length r.card2 ≡ 16
  pub pin_size : length r.pin ≡ 17
  pub card_fits : r.card_len ≤ 16
  pub card2_fits : r.card2_len ≤ 16
  pub pin_fits : r.pin_len ≤ 16
  pub timer_fits : r.two_factor_timer ≤ 23

-- Between two calls no second card is kept, and credentials only while the two-factor timer runs.
pub record IsSound (r : DoorReader) : Type 0 where
  pub fits : Fits r
  pub no_second : r.card2_len ≡ 0
  pub idle : r.two_factor_timer ≡ 0 → (r.card_len ≡ 0) × (r.pin_len ≡ 0)

pub reset_auth-IsSound : (r : DoorReader) → Fits r → r.card2_len ≡ 0 → IsSound (reset_auth r)
reset_auth-IsSound r f z = ground arith

-- The reader after the input is stored.
record IsStored (r : DoorReader) : Type 0 where
  fits : Fits r
  second : r.card2_len ≢ 0 → (r.access_mode ≡ mode_two_cards) × (r.card_len ≢ 0)

module _ (r : DoorReader) (u : UserInfo) (enough : u.len ≤ length u.bytes) (v : IsSound r) where
  store_input-IsStored : (r' : DoorReader) → store_input r u ≡ stored r' → IsStored r'
  unfolding store_input
  store_input-IsStored r' e = ground (
    arith,
    v,
    length-memcpy {0} r.pin u.bytes u.len,
    length-set {0} (memcpy r.pin u.bytes u.len) u.len 0,
    length-memcpy {0} r.card u.bytes u.len,
    length-memcpy {0} r.card2 u.bytes u.len,
  )

module _ (db : UserDb) (name : Text) (handle : ℕ) (r : DoorReader) where
  check_access-Fits :
      IsStored r
      → let c = check_access db name handle r in Fits c.credentials × (c.credentials.card2_len ≡ 0)
  unfolding check_access
  check_access-Fits v = ground (arith, v)

abbrev logged : Checked → World → World
logged c w = record w { log = c.sent ++ w.log }

pub conclude-IsSound :
    (i : ℕ) (side : Side) (handle : ℕ) (c : Checked) (w : World)
    → Fits c.credentials
    → c.credentials.card2_len ≡ 0
    → AllReaders IsSound w
    → AllReaders IsSound (conclude i side handle c w)
unfolding conclude
conclude-IsSound i side handle c w f z v =
    let w' = put_reader i side c.credentials (logged c w) in
    let old = put_reader-Other IsSound i side c.credentials (logged c w) (λ s j _. v s j) in
    let same = reader-put_reader_self side i c.credentials (logged c w) in
    let reset = reset_auth-IsSound c.credentials f z in
    let opened = (unlock_door i c.auth_mask w').1 in
    let reset_opened : IsSound (reset_auth (door_reader side (opened.doors i))) =
      rw (reader-unlock_door side i c.auth_mask w' i, same) reset in
    let reset_failed : IsSound (reset_auth (door_reader side (w'.doors i))) = rw same reset in
    let other = unlock_door-Other IsSound i side c.auth_mask w' old in
    elim (Bool-cases (truth c.auth_mask)) [
      | inl e ↦ rw (e, conclude) (put_reader-All IsSound i side _ opened reset_opened other)
      | inr e ↦ elim (Bool-cases (c.credentials.two_factor_timer == 0)) [
        | inl t ↦
            rw (e, conclude)
              (rw (t, conclude) (put_reader-All IsSound i side _ w' reset_failed old))
        | inr t ↦
            let waiting : IsSound c.credentials = record {
              fits = f;
              no_second = z;
              idle = λ h. absurd (ground arith);
            } in
            rw (e, conclude)
              (rw (t, conclude)
                (put_reader-All IsSound i side c.credentials (logged c w) waiting (λ s j _. v s j)))
      ]
    ]

reset_door_auth-IsSound :
    (i : ℕ) (side : Side) (w : World)
    → AllReaders IsSound w
    → AllReaders IsSound (reset_door_auth i side w)
unfolding reset_door_auth
reset_door_auth-IsSound i side w v =
    let here = v side i in
    put_reader-All IsSound i side (reset_auth (door_reader side (w.doors i))) w
      (reset_auth-IsSound _ here.fits here.no_second) (λ s j _. v s j)

continue_with-IsSound :
    (db : UserDb) (i : ℕ) (side : Side) (handle : ℕ) (s : Stored) (w : World)
    → ((r : DoorReader) → s ≡ stored r → IsStored r)
    → AllReaders IsSound w
    → AllReaders IsSound (continue_with db i side handle s w)
unfolding continue_with
continue_with-IsSound db i side handle refused_data w is_stored v =
    reset_door_auth-IsSound i side w v
continue_with-IsSound db i side handle refused_usage w is_stored v =
    reset_door_auth-IsSound i side w v
continue_with-IsSound db i side handle (stored r) w is_stored v =
    let (f, z) = check_access-Fits db (w.doors i).door_name handle r (is_stored r refl) in
    conclude-IsSound i side handle (check_access db (w.doors i).door_name handle r) w f z v

-- What a reader hands over is an array of at least the stated length.
abbrev pub IsInput : UserInfo → Type 0
IsInput u = u.len ≤ length u.bytes

process_side-IsSound :
    (db : UserDb) (i : ℕ) (side : Side) (handle : ℕ) (u : UserInfo) (w : World)
    → IsInput u
    → AllReaders IsSound w
    → AllReaders IsSound (process_side db i side handle u w)
unfolding process_side
process_side-IsSound db i side handle u w enough v =
    let r = door_reader side (w.doors i) in
    continue_with-IsSound db i side handle (store_input r u) w
      (store_input-IsStored r u enough (v side i)) v

-- Whatever a reader hands over, if it is at least as long as it says, and whatever the user
-- database answers, `process_user_info` keeps all readers sound: their credentials lie within
-- their buffers, and a reader holds a card or a PIN only while its two-factor timer runs.
pub process_user_info-IsSound :
    (db : UserDb) (handle : ℕ) (u : UserInfo) (i : ℕ) (w : World)
    → IsInput u
    → AllReaders IsSound w
    → AllReaders IsSound (process_user_info db handle u i w)
unfolding process_user_info
process_user_info-IsSound db handle u i w enough v =
    elim (Bool-cases (is_reader (w.doors i).reader_a.reader handle)) [
      | inl e ↦ rw (e, process_user_info) (process_side-IsSound db i side_a handle u w enough v)
      | inr e ↦ elim (Bool-cases (is_reader (w.doors i).reader_b.reader handle)) [
        | inl f ↦
            rw (e, process_user_info)
              (rw (f, process_user_info) (process_side-IsSound db i side_b handle u w enough v))
        | inr f ↦ rw (e, process_user_info) (rw (f, process_user_info) v)
      ]
    ]

module _ (i : ℕ) (w : World) where
  abbrev ticked : Side → DoorReader
  ticked side =
      let r = door_reader side (w.doors i) in record r { two_factor_timer = r.two_factor_timer - 1 }

  ticked-Fits :
      (side : Side) → AllReaders IsSound w → Fits (ticked side) × ((ticked side).card2_len ≡ 0)
  ticked-Fits side v = ground (arith, v side i)

  -- A tick of the two-factor timer forgets the credentials when it ends the waiting.
  pub two_factor_tick-IsSound :
      (side : Side) → AllReaders IsSound w → AllReaders IsSound (two_factor_tick i side w)
  unfolding two_factor_tick
  two_factor_tick-IsSound side v =
      let r = door_reader side (w.doors i) in
      let w' = put_reader i side (ticked side) w in
      let (f, z) = ticked-Fits side v in
      let old = put_reader-Other IsSound i side (ticked side) w (λ s j _. v s j) in
      let reset : IsSound (reset_auth (door_reader side (w'.doors i))) =
        rw (reader-put_reader_self side i (ticked side) w) (reset_auth-IsSound (ticked side) f z) in
      elim (Bool-cases (ltb 0 r.two_factor_timer)) [
        | inl e ↦ elim (Bool-cases (r.two_factor_timer - 1 == 0)) [
          | inl t ↦
              rw (e, two_factor_tick)
                (rw (t, two_factor_tick)
                  (rw (doors-signal_reader err_usage r.reader _, doors-clear_reader_data r.reader _)
                    (put_reader-All IsSound i side _ w' reset old)))
          | inr t ↦
              let waiting : IsSound (ticked side) = record {
                fits = f;
                no_second = z;
                idle = λ h. absurd (ground arith);
              } in
              rw (e, two_factor_tick)
                (rw (t, two_factor_tick)
                  (rw (doors-signal_reader pin_quiet r.reader _)
                    (put_reader-All IsSound i side (ticked side) w waiting (λ s j _. v s j))))
        ]
        | inr e ↦ rw (e, two_factor_tick) v
      ]
