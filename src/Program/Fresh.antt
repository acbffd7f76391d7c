-- ===== src/Program/Fresh.antt =====
-- The doors that door_controller/main.c allocates and fills.
use osdp_roger_acs.Base.{ℕ, suc, zero, ◌≡◌, refl, ap, inl, inr, arith}
use osdp_roger_acs.Base.{List, [], ◌∷◌, map, length, get_or, Option, none, some, Bool-cases}
use osdp_roger_acs.Base.{if◌then◌else◌, truth}
use osdp_roger_acs.Door.{Text, Door, DoorReader, World, Side, side_a, side_b}
use osdp_roger_acs.Door.Credentials.{IsSound}
use osdp_roger_acs.Base.{Bool, not, true, false}
use osdp_roger_acs.Program.Config.{goes, on_goes, goes-inj, parse_line, ReaderWords}
use osdp_roger_acs.Program.Config.{
  fresh_reader, fresh_door, first_input, is_counted, is_skipped, count_doors, Parsed, link_partner,
  link_partners, world_of, door_at,
}
use osdp_roger_acs.Program.Main.{Setting, start_reader, opened, start_door, start_doors}

-- A door as the start leaves it: its readers hold nothing, and its lock timer is at 1, so that the
-- first round locks it.
pub record IsFresh (d : Door) : Type 0 where
  pub sound_a : IsSound d.reader_a
  pub sound_b : IsSound d.reader_b
  pub fresh_input : d.last_input ≡ first_input
  pub fresh_alarm : d.alarm_timers ≡ 0
  pub fresh_timer : d.door_lock_timer ≡ 1
  pub fresh_disable : d.adm_disable_mask ≡ 0
  pub fresh_air : d.air_lock_mask ≡ 0

pub fresh_reader-IsSound : (mode : ℕ) (o : Option ℕ) → IsSound (fresh_reader mode o)
unfolding fresh_reader
fresh_reader-IsSound mode o = record {
  fits = record {
    card_size = refl;
    card2_size = refl;
    pin_size = refl;
    card_fits = omega arith;
    card2_fits = omega arith;
    pin_fits = omega arith;
    timer_fits = omega arith;
  };
  no_second = refl;
  idle = λ h. (refl, refl);
}

pub fresh_door-IsFresh :
    (name : Text) (a b : DoorReader) (offset full : ℕ)
    → IsSound a
    → IsSound b
    → IsFresh (fresh_door name a b offset full)
unfolding fresh_door
fresh_door-IsFresh name a b offset full u v = record {
  sound_a = u;
  sound_b = v;
  fresh_input = refl;
  fresh_alarm = refl;
  fresh_timer = refl;
  fresh_disable = refl;
  fresh_air = refl;
}

abbrev AllFresh : List Parsed → Type 0
AllFresh [] = Unit
AllFresh (p ∷ ps) = IsFresh p.0 × AllFresh ps

-- The two loops agree about a line.
is_counted-skipped :
    (line : Text) (skipped : Bool) → is_skipped line ≡ skipped → is_counted line ≡ not skipped
unfolding is_counted is_skipped
is_counted-skipped [] skipped h = rw (← h) refl
is_counted-skipped (c ∷ s) true h = ground (arith, h)
is_counted-skipped (c ∷ s) false h = ground (arith, h)

module _ (env : Setting) where
  start_reader-IsSound :
      (k : ℕ) (side : Side) (v : ReaderWords) (r : DoorReader)
      → start_reader env k side v ≡ goes r
      → IsSound r
  unfolding start_reader
  start_reader-IsSound k side v r h =
      on_goes (if truth v.access_mode then opened env (env.init_reader k side v) else goes none) h
        λ o e f. rw (← goes-inj f) (fresh_reader-IsSound v.access_mode o)

  start_door-IsFresh :
      (k : ℕ) (line : Text) (p : Parsed) → start_door env k line ≡ goes p → IsFresh p.0
  unfolding start_door
  start_door-IsFresh k line p h = on_goes (parse_line line) h λ v e f.
      on_goes (start_reader env k side_a v.words_a) f λ a e₁ f₁.
        on_goes (start_reader env k side_b v.words_b) f₁ λ b e₂ f₂.
          let fresh =
            fresh_door-IsFresh v.door_name a b v.mask_offset v.mask_full
              (start_reader-IsSound k side_a v.words_a a e₁)
              (start_reader-IsSound k side_b v.words_b b e₂) in
          rw (← ap (λ (q : Parsed). q.0) (goes-inj f₂)) fresh

  -- A door that was started, and those after it.
  pub start_doors-AllFresh :
      (k : ℕ) (lines : List Text) (ps : List Parsed)
      → start_doors env k lines ≡ goes ps
      → AllFresh ps × (length ps ≡ count_doors lines)
  unfolding start_doors count_doors
  start_doors-AllFresh k [] ps h = rw (← goes-inj h) (tt, refl)
  start_doors-AllFresh k (line ∷ lines) ps h = elim (Bool-cases (is_skipped line)) [
    | inl e ↦ rw (is_counted-skipped line true e) (start_doors-AllFresh k lines ps (rw e at h))
    | inr e ↦ on_goes (start_door env k line) (rw e at h) λ p e₁ f.
        on_goes (start_doors env (suc k) lines) f λ rest e₂ g.
          let (fresh, len) = start_doors-AllFresh (suc k) lines rest e₂ in
          rw (is_counted-skipped line false e, ← goes-inj g)
            ((start_door-IsFresh k line p e₁, fresh), ap suc len)
  ]

link_partner-IsFresh : (w : World) (p : Parsed) → IsFresh p.0 → IsFresh (link_partner w p)
unfolding link_partner
link_partner-IsFresh w (d, none) v = v
link_partner-IsFresh w (d, some name) v = record {
  sound_a = v.sound_a;
  sound_b = v.sound_b;
  fresh_input = v.fresh_input;
  fresh_alarm = v.fresh_alarm;
  fresh_timer = v.fresh_timer;
  fresh_disable = v.fresh_disable;
  fresh_air = v.fresh_air;
}

linked-IsFresh :
    (w : World) (ps : List Parsed) (default : Door) (j : ℕ)
    → AllFresh ps
    → IsFresh default
    → IsFresh (get_or (map (link_partner w) ps) j default)
linked-IsFresh w [] default j all v = v
linked-IsFresh w (p ∷ ps) default zero (fresh, all) v = link_partner-IsFresh w p fresh
linked-IsFresh w (p ∷ ps) default (suc j) (fresh, all) v = linked-IsFresh w ps default j all v

pub no_door-IsFresh :
    (name : Text) → IsFresh (fresh_door name (fresh_reader 0 none) (fresh_reader 0 none) 0 0)
no_door-IsFresh name =
    fresh_door-IsFresh name _ _ 0 0 (fresh_reader-IsSound 0 none) (fresh_reader-IsSound 0 none)

abbrev pub Fresh : World → Type 0
Fresh w = (j : ℕ) → IsFresh (w.doors j)

pub link_partners-Fresh : (ps : List Parsed) → AllFresh ps → Fresh (link_partners ps)
unfolding link_partners world_of door_at
link_partners-Fresh ps all j = linked-IsFresh _ ps _ j all (no_door-IsFresh [])
