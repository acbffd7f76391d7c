-- ===== src/Program/Config.antt =====
-- The configuration file of door_controller/main.c: its lines, and the doors that they describe.
use osdp_roger_acs.Base.{true, ltb}
use osdp_roger_acs.Base.{ℕ, suc, List, [], ◌∷◌, map, Option, none, some, Bool, false}
use osdp_roger_acs.Base.{◌==◌, leb, if◌then◌else◌, ◌%◌, u32}
use osdp_roger_acs.Base.{length, get_or, replicate}
use osdp_roger_acs.Base.{◌≡◌, refl, ap, arith}
use osdp_roger_acs.CString.{strtok, strtoll}
use osdp_roger_acs.Door.{Text, DoorReader, Door, World, get_door_by_name, max_card_len, max_pin_len}

-- A part of `main`: it ends the program with an exit status, or goes on.
pub data Outcome (A : Type 0) : Type 0 where
  exits : ℕ → Outcome A
  goes : A → Outcome A

infixl 5 ◌>>=◌
abbrev pub ◌>>=◌ : {A B : Type 0} → Outcome A → (A → Outcome B) → Outcome B
exits n >>= f = exits n
goes a >>= f = f a

abbrev pub byte_of : Text → ℕ
byte_of s = strtoll s % 256

-- `configParse(&b, …)`: the next word of the line, and what `b` points to after it.
unfoldable pub config_parse : Text → Outcome (Text × Text)
config_parse b = next (strtok b)
  where
    next : Option Text × Text → Outcome (Text × Text)
    next (none, b') = exits 1
    next (some f, b') = goes (f, b')

-- The words of a line that describe one reader, and what follows.
pub record ReaderWords : Type 0 where
  pub access_mode : ℕ
  pub serial_dev : Text
  pub use_rs485 : ℕ
  pub reader_addres : ℕ

unfoldable pub reader_words : Text → Outcome (ReaderWords × Text)
reader_words b = do
  (mode, b₁) ← config_parse b
  (serial_dev, b₂) ← config_parse b₁
  (rs485, b₃) ← config_parse b₂
  (address, b₄) ← config_parse b₃
  goes (
    record {
      access_mode = byte_of mode;
      serial_dev = serial_dev;
      use_rs485 = byte_of rs485;
      reader_addres = byte_of address;
    },
    b₄,
  )

-- The words of a line of the configuration file, in their order.
pub record Line : Type 0 where
  pub door_name : Text
  pub words_a : ReaderWords
  pub words_b : ReaderWords
  pub mask_offset : ℕ
  pub mask_full : ℕ
  pub partner : Text

unfoldable pub parse_line : Text → Outcome Line
parse_line line = do
  (door_name, b₁) ← config_parse line
  (a, b₂) ← reader_words b₁
  (b, b₃) ← reader_words b₂
  (offset, b₄) ← config_parse b₃
  (full, b₅) ← config_parse b₄
  (partner, _) ← config_parse b₅
  goes (record {
    door_name = door_name;
    words_a = a;
    words_b = b;
    mask_offset = byte_of offset;
    mask_full = u32 (strtoll full);
    partner = partner;
  })

-- `DI_STATE_IS_DIFF | 0x0f`.
abbrev pub first_input : ℕ
first_input = 0x8f

-- What `memset` leaves of a reader, with a mode and a handle.
unfoldable pub fresh_reader : ℕ → Option ℕ → DoorReader
fresh_reader mode reader = record {
  reader = reader;
  access_mode = mode;
  two_factor_timer = 0;
  card_len = 0;
  card2_len = 0;
  pin_len = 0;
  card = replicate max_card_len 0;
  card2 = replicate max_card_len 0;
  pin = replicate (suc max_pin_len) 0;
}

unfoldable pub fresh_door : Text → DoorReader → DoorReader → ℕ → ℕ → Door
fresh_door name a b offset full = record {
  door_name = name;
  reader_a = a;
  reader_b = b;
  last_input = first_input;
  alarm_timers = 0;
  mask_offset = offset;
  mask_full = full;
  door_lock_timer = 1;
  adm_disable_mask = 0;
  air_lock_mask = 0;
  air_lock_partner_local = none;
}

-- `airLockPartnerString`; a word is never empty.
unfoldable pub partner_string : Text → Option Text
partner_string [] = none
partner_string (c ∷ s) = if c == b'-' then none else some (c ∷ s)

-- `line[0] >= '0'`, by which the first loop counts a door. `fgets` gives no empty line.
unfoldable pub is_counted : Text → Bool
is_counted [] = false
is_counted (c ∷ s) = leb b'0' c

-- `line[0] < '0'`, by which the second loop skips a line.
unfoldable pub is_skipped : Text → Bool
is_skipped [] = true
is_skipped (c ∷ s) = ltb c b'0'

-- The loop that counts the doors.
unfoldable pub count_doors : List Text → ℕ
count_doors [] = 0
count_doors (line ∷ lines) =
    let rest = count_doors lines in if is_counted line then suc rest else rest

-- A door and the name of its partner.
abbrev pub Parsed : Type 0
Parsed = Door × Option Text

-- The doors of the array, by their index; behind its end nothing is read.
unfoldable pub door_at : List Door → ℕ → Door
door_at doors i = get_or doors i (fresh_door [] (fresh_reader 0 none) (fresh_reader 0 none) 0 0)

-- The loop that looks up the partners, and the array it leaves.
unfoldable pub link_partner : World → Parsed → Door
link_partner w (door, none) = door
link_partner w (door, some name) = record door { air_lock_partner_local = get_door_by_name w name }

unfoldable pub world_of : List Door → World
world_of doors = record { doors = door_at doors; doors_count = length doors; log = [] }

unfoldable pub link_partners : List Parsed → World
link_partners parsed =
    let w = world_of (map (λ p. p.0) parsed) in world_of (map (link_partner w) parsed)

abbrev value {ℓ} : {A : Type 0} {B : Type ℓ} → B → (A → B) → Outcome A → B
value b f (exits n) = b
value b f (goes a) = f a

pub goes-inj : {A : Type 0} {a b : A} → goes a ≡ goes b → a ≡ b
goes-inj {A} {a} h = ap (value a (λ x. x)) h

pub goes-exits : {A : Type 0} {a : A} {n : ℕ} → exits n ≡ goes a → ⊥
goes-exits h = absurd (ground arith)

-- A chain that goes on went on at each step.
pub on_goes :
    {A B C : Type 0} (m : Outcome A) {f : A → Outcome B} {b : B}
    → m >>= f ≡ goes b
    → ((a : A) → m ≡ goes a → f a ≡ goes b → C)
    → C
on_goes (exits n) h k = absurd (ground arith)
on_goes (goes a) h k = k a refl h
