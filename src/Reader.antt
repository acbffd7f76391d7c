-- ===== src/Reader.antt =====
-- readers/reader.h: the signals, and what a reader hands to `process_user_info`.
use osdp_roger_acs.Base.{ℕ, List}

-- `signal` is an unsigned `char`, as on the ARM boards, so each code is a value of the `switch`.
pub data Signal : Type 0 where
  ok door_open door_lock : Signal
  err err_auth err_usage err_comm : Signal
  pin_entry pin_quiet : Signal
  blocked unblocked : Signal

pub data DataType : Type 0 where
  is_pin is_card : DataType

pub data DataMode : Type 0 where
  complete out_of_buf timeout : DataMode

-- The arguments of one call of `process_user_info` that describe the input.
pub record UserInfo : Type 0 where
  pub bytes : List ℕ
  pub len : ℕ
  pub type : DataType
  pub mode : DataMode
