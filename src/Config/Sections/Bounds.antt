-- ===== src/Config/Sections/Bounds.antt =====
-- What rust/src/config.rs takes for a type, an address or a subaddress is in its range.
use mie_decoder.Config.Toml.Value.{
  Std, TomlValue, TomlValues, end, item, string, int, float, bool, array,
}
use mie_decoder.Config.Toml.Get.{ConfigProblem}
use mie_decoder.Config.Text.{parse_unsigned, hex_value, unsigned, trim}
use mie_decoder.Config.Names.{
  or_invalid, parse_type_value, parse_type_name, type_named, hex_code, by_name, message_types,
  parse_int_rt_sa, as_u8, below_32,
}
use mie_decoder.Config.Schema.{push_parsed}
use mie_decoder.Config.Sections.InRange.{OptionAll, or_invalid-Right}
use mie_decoder.Models.{MessageType, type_code}
use mie_decoder.Models.Text.{ℤ, pos, negsuc}
use mie_decoder.Common.{
  ℕ, ◌≤◌, max, ◌⊎◌, ◌&&◌, Option, none, some, List, [], ◌∷◌, ◌++◌, arith, leb, ◌==◌, if◌then◌else◌,
  if_intro, Right, Right-bind, All, All-append,
}

abbrev pub Below : ℕ → ℕ → Type 0
Below max n = n ≤ max

pub parse_unsigned-Below :
    (base : ℕ) (digit_of : ℕ → Option ℕ) (max : ℕ) (s : List ℕ)
    → OptionAll (Below max) (parse_unsigned base digit_of max s)
unfolding parse_unsigned
parse_unsigned-Below base digit_of max [] = tt
parse_unsigned-Below base digit_of max (c ∷ s) =
    bounded (if c == b'+' then unsigned base digit_of s else unsigned base digit_of (c ∷ s))
  where
    bounded :
        (o : Option ℕ)
        → OptionAll
            (Below max)
            (elim o [ none ↦ none | some n ↦ if leb n max then some n else none ])
    bounded none = tt
    bounded (some n) =
        if_intro (OptionAll (Below max)) (leb n max) _ _ (λ h. ground arith) (λ h. tt)

pub hex_code-Below : (s : List ℕ) → OptionAll (Below 255) (hex_code s)
hex_code-Below [] = tt
hex_code-Below (z ∷ []) = tt
hex_code-Below (z ∷ x ∷ rest) =
    if_intro (OptionAll (Below 255)) (z == b'0' && x == b'X') _ _
      (λ h. parse_unsigned-Below 16 hex_value 255 rest) (λ h. tt)

pub type_code-Below : (t : MessageType) → type_code t ≤ 255
type_code-Below t = ground arith

pub type_named-Below :
    (t : Option MessageType) (hex : Option ℕ)
    → OptionAll (Below 255) hex
    → Right (Below 255) (type_named t hex)
type_named-Below (some t) hex h = type_code-Below t
type_named-Below none hex h = or_invalid-Right (Below 255) hex h

pub as_u8-Below : (i : ℤ) → OptionAll (Below 255) (as_u8 i)
as_u8-Below (pos n) = if_intro (OptionAll (Below 255)) (leb n 255) _ _ (λ h. ground arith) (λ h. tt)
as_u8-Below (negsuc n) = tt

pub below_32-Below : (v : ℕ) → Right (Below 31) (below_32 v)
below_32-Below v = if_intro (Right (Below 31)) (leb v 31) _ _ (λ h. ground arith) (λ h. tt)

module _ {F : Type 0} where
  pub parse_int_rt_sa-Below : (v : TomlValue F) → Right (Below 31) (parse_int_rt_sa v)
  unfolding parse_int_rt_sa
  parse_int_rt_sa-Below (int i) =
      Right-bind (Below 255) (Below 31) (or_invalid (as_u8 i)) below_32
        (or_invalid-Right (Below 255) (as_u8 i) (as_u8-Below i)) (λ a p. below_32-Below a)
  parse_int_rt_sa-Below (string s) = tt
  parse_int_rt_sa-Below (float f) = tt
  parse_int_rt_sa-Below (bool b) = tt
  parse_int_rt_sa-Below (array items) = tt

  pub push_parsed-All :
      {A : Type 0} (P : A → Type 0) (parse : TomlValue F → ConfigProblem ⊎ A) (out : List A)
      (vs : TomlValues F)
      → ((v : TomlValue F) → Right P (parse v))
      → All P out
      → Right (All P) (push_parsed parse out vs)
  unfolding push_parsed
  push_parsed-All P parse out end h p = p
  push_parsed-All P parse out (item v vs) h p =
      Right-bind P (All P) (parse v) _ (h v)
        (λ a q. push_parsed-All P parse (out ++ a ∷ []) vs h (All-append P out (a ∷ []) p (q, tt)))

module _ {F : Type 0} (std : Std F) where
  pub parse_type_value-Below : (v : TomlValue F) → Right (Below 255) (parse_type_value std v)
  unfolding parse_type_value parse_type_name
  parse_type_value-Below (string s) =
      type_named-Below (by_name message_types (std.to_uppercase (trim s)))
        (hex_code (std.to_uppercase (trim s))) (hex_code-Below (std.to_uppercase (trim s)))
  parse_type_value-Below (int i) = or_invalid-Right (Below 255) (as_u8 i) (as_u8-Below i)
  parse_type_value-Below (float f) = tt
  parse_type_value-Below (bool b) = tt
  parse_type_value-Below (array items) = tt
