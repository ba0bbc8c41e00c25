-- ===== src/Config/Toml/Get.antt =====
-- The lookups of `TomlDoc` in rust/src/config.rs: a missing key is no error, a value of another
-- type is.
use mie_decoder.Config.Toml.Value.{Std, TomlValue, string, int, float, bool, array, TomlValues}
use mie_decoder.Config.Toml.Doc.{Entry, is_entry_of}
use mie_decoder.Models.Text.{ℤ}
use mie_decoder.Common.{
  ℕ, ◌⊎◌, inl, inr, Bool, Option, none, some, List, [], ◌∷◌, if◌then◌else◌, take,
}

-- `ConfigError` of the schema, without its text.
pub data ConfigProblem : Type 0 where
  section_as_scalar not_a_string not_a_boolean not_an_array not_an_integer not_a_number :
      ConfigProblem
  renamed_key invalid_value : ConfigProblem

unfoldable pub get : {F : Type 0} → List (Entry F) → List ℕ → List ℕ → Option (TomlValue F)
get [] section key = none
get (e ∷ es) section key =
    let rest = get es section key in if is_entry_of section key e then some e.value else rest

abbrev pub Got : Type 0 → Type 0
Got A = ConfigProblem ⊎ Option A

abbrev pub as_string : {F : Type 0} → TomlValue F → Got (List ℕ)
as_string (string s) = inr (some s)
as_string v = inl not_a_string

abbrev pub as_bool : {F : Type 0} → TomlValue F → Got Bool
as_bool (bool b) = inr (some b)
as_bool v = inl not_a_boolean

abbrev pub as_array : {F : Type 0} → TomlValue F → Got (TomlValues F)
as_array (array a) = inr (some a)
as_array v = inl not_an_array

abbrev pub as_int : {F : Type 0} → TomlValue F → Got ℤ
as_int (int i) = inr (some i)
as_int v = inl not_an_integer

abbrev pub as_float : {F : Type 0} → Std F → TomlValue F → Got F
as_float std (float f) = inr (some f)
as_float std (int i) = inr (some (std.i64_as_f64 i))
as_float std v = inl not_a_number

-- `None => Ok(None)`, and the other arms.
abbrev pub get_as : {F A : Type 0} → (TomlValue F → Got A) → Option (TomlValue F) → Got A
get_as take none = inr none
get_as take (some v) = take v

module _ {F : Type 0} where
  unfoldable pub get_string : List (Entry F) → List ℕ → List ℕ → Got (List ℕ)
  unfolding get
  get_string doc section key = get_as as_string (get doc section key)

  unfoldable pub get_bool : List (Entry F) → List ℕ → List ℕ → Got Bool
  unfolding get
  get_bool doc section key = get_as as_bool (get doc section key)

  unfoldable pub get_array : List (Entry F) → List ℕ → List ℕ → Got (TomlValues F)
  unfolding get
  get_array doc section key = get_as as_array (get doc section key)

  unfoldable pub get_int : List (Entry F) → List ℕ → List ℕ → Got ℤ
  unfolding get
  get_int doc section key = get_as as_int (get doc section key)

  unfoldable pub get_float : Std F → List (Entry F) → List ℕ → List ℕ → Got F
  unfolding get
  get_float std doc section key = get_as (as_float std) (get doc section key)
