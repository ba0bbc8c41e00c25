-- ===== src/Models.antt =====
-- rust/src/models.rs: the enums and plain structs of a decoded record.
pub mod Calendar
pub mod DataWords
pub mod Timestamp
pub mod Text
pub mod Message
use mie_decoder.Common.{
  ℕ, ◌≡◌, ◌↔◌, ◌⊎◌, inl, inr, Bool, true, false, ◌||◌, Option, none, some, arith, ◌==◌,
  if◌then◌else◌, Option-cases,
}

pub data Bus : Type 0 where
  bus_a bus_b : Bus

abbrev pub bus_eq : Bus → Bus → Bool
bus_eq bus_a bus_a = true
bus_eq bus_b bus_b = true
bus_eq _ _ = false

pub data Direction : Type 0 where
  receive transmit : Direction

abbrev pub direction_eq : Direction → Direction → Bool
direction_eq receive receive = true
direction_eq transmit transmit = true
direction_eq _ _ = false

pub data MessageType : Type 0 where
  mode_command bc_to_rt rt_to_bc rt_to_rt broadcast_bc_to_rt broadcast_rt_to_rt spurious_data :
      MessageType

-- `self as u8`.
abbrev pub type_code : MessageType → ℕ
type_code mode_command = 0x01
type_code bc_to_rt = 0x02
type_code rt_to_bc = 0x04
type_code rt_to_rt = 0x08
type_code broadcast_bc_to_rt = 0x10
type_code broadcast_rt_to_rt = 0x18
type_code spurious_data = 0x20

unfoldable pub from_code : ℕ → Option MessageType
from_code code =
    if code == 0x01
    then some mode_command
    else if code == 0x02
    then some bc_to_rt
    else if code == 0x04
    then some rt_to_bc
    else if code == 0x08
    then some rt_to_rt
    else if code == 0x10
    then some broadcast_bc_to_rt
    else if code == 0x18
    then some broadcast_rt_to_rt
    else if code == 0x20
    then some spurious_data
    else none

unfoldable pub is_valid_message_type : ℕ → Bool
is_valid_message_type code =
    code == 0x01
    || code == 0x02
    || code == 0x04
    || code == 0x08
    || code == 0x10
    || code == 0x18
    || code == 0x20

pub data MessageFormat : Type 0 where
  receive transmit rt_to_rt receive_broadcast rt_to_rt_broadcast mode_code_tx_data mode_code_rx_data
        mode_code_no_data mode_code_bcast_no_data mode_code_bcast_data spurious_data :
      MessageFormat

pub data TimestampFormat : Type 0 where
  auto irig standard : TimestampFormat

abbrev pub format_eq : TimestampFormat → TimestampFormat → Bool
format_eq auto auto = true
format_eq irig irig = true
format_eq standard standard = true
format_eq _ _ = false

abbrev pub timestamp_word_count : TimestampFormat → ℕ
timestamp_word_count irig = 3
timestamp_word_count standard = 2
timestamp_word_count auto = 0

-- The five codes that a DDC card writes, and the two that the decoder adds.
abbrev pub error_spurious_continuation : ℕ
error_spurious_continuation = 0x2000

abbrev pub error_spurious_standalone : ℕ
error_spurious_standalone = 0x2001

unfoldable pub is_known_ddc_error_code : ℕ → Bool
is_known_ddc_error_code code =
    code == 0x011E || code == 0x0120 || code == 0x0136 || code == 0x0140 || code == 0x0150

unfoldable pub is_known_custom_error_code : ℕ → Bool
is_known_custom_error_code code =
    code == error_spurious_continuation || code == error_spurious_standalone

unfoldable pub is_known_error_code : ℕ → Bool
unfolding is_known_ddc_error_code is_known_custom_error_code
is_known_error_code code = is_known_ddc_error_code code || is_known_custom_error_code code

pub record TypeWord : Type 0 where
  pub message_type : ℕ
  pub bus : Bus
  pub word_count : ℕ
  pub error : Bool
  pub raw : ℕ

pub record CommandWord : Type 0 where
  pub rt : ℕ
  pub direction : Direction
  pub subaddress : ℕ
  pub data_word_count : ℕ
  pub raw : ℕ

unfoldable pub is_broadcast : CommandWord → Bool
is_broadcast cmd = cmd.rt == 31

unfoldable pub is_mode_code : CommandWord → Bool
is_mode_code cmd = cmd.subaddress == 0 || cmd.subaddress == 31

-- `from_code` knows the codes that `is_valid_message_type` admits, each under its own number.
pub from_code-is_valid :
    (code : ℕ)
    → (is_valid_message_type code ≡ true)
      ↔ ((t : MessageType) × (from_code code ≡ some t) × (type_code t ≡ code))
unfolding from_code is_valid_message_type
from_code-is_valid code = (known (Option-cases (from_code code)), λ (t, e, c). valid t e c)
  where
    known :
        (from_code code ≡ none) ⊎ ((t : MessageType) × (from_code code ≡ some t))
        → is_valid_message_type code ≡ true
        → (t : MessageType) × (from_code code ≡ some t) × (type_code t ≡ code)
    known (inl e) v = absurd (ground arith)
    known (inr (t, e)) v = (t, e, ground arith)

    valid :
        (t : MessageType)
        → from_code code ≡ some t
        → type_code t ≡ code
        → is_valid_message_type code ≡ true
    valid t e c = ground arith
