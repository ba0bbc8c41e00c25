-- ===== src/Cli/Joined.antt =====
-- `--flag=value` and `--flag value` are the same invocation in rust/src/cli.rs.
use mie_decoder.Cli.Values.{ParseError, looks_like_option, split_arg, split_found, is_long}
use mie_decoder.Cli.Decode.{DecodeArgs, valued, change, value, flags, demand, decode_loop}
use mie_decoder.Config.Text.{text_eq, split_at}
use mie_decoder.Config.Toml.Value.{Std}
use mie_decoder.Config.Names.{by_name}
use mie_decoder.Models.Text.{codes}
use mie_decoder.Common.{
  ℕ, ◌≡◌, refl, sym, ap, ◌≢◌, ◌⊎◌, inl, inr, Bool, true, false, none, some, List, [], ◌∷◌, ◌++◌,
  arith, if◌then◌else◌, set, ◌>>=◌, All,
}

abbrev NoEquals : List ℕ → Type 0
NoEquals = All (λ (c : ℕ). c ≢ b'=')

-- Two dashes, then at least one character, and no `=`.
abbrev pub IsLongName : List ℕ → Type 0
IsLongName (a ∷ b ∷ c ∷ s) = (a ≡ b'-') × (b ≡ b'-') × NoEquals (c ∷ s)
IsLongName s = ⊥

split_at-joined :
    (name v : List ℕ) → NoEquals name → split_at b'=' (name ++ b'=' ∷ v) ≡ some (name, v)
unfolding split_at
split_at-joined [] v h = refl
split_at-joined (c ∷ name) v h = ground (arith, h.0, split_at-joined name v h.1)

split_at-none : (name : List ℕ) → NoEquals name → split_at b'=' name ≡ none
unfolding split_at
split_at-none [] h = refl
split_at-none (c ∷ name) h = ground (arith, h.0, split_at-none name h.1)

long_NoEquals : (name : List ℕ) → IsLongName name → NoEquals name
long_NoEquals [] h = absurd h
long_NoEquals (a ∷ []) h = absurd h
long_NoEquals (a ∷ b ∷ []) h = absurd h
long_NoEquals (a ∷ b ∷ c ∷ s) h = ((λ e. omega (arith, h.0)), ((λ e. omega (arith, h.1)), h.2))

long_append : (name v : List ℕ) → IsLongName name → is_long (name ++ v) ≡ true
long_append [] v h = absurd h
long_append (a ∷ []) v h = absurd h
long_append (a ∷ b ∷ []) v h = absurd h
long_append (a ∷ b ∷ c ∷ s) v h = ground (arith, h.0, h.1)

split_arg-joined :
    (name v : List ℕ)
    → IsLongName name
    → split_arg (name ++ b'=' ∷ v) ≡ record { raw = name ++ b'=' ∷ v; name = name; inline = some v }
unfolding split_arg
split_arg-joined name v h =
    rw (long_append name (b'=' ∷ v) h, split_at-joined name v (long_NoEquals name h)) refl

split_arg-plain :
    (name : List ℕ)
    → IsLongName name
    → split_arg name ≡ record { raw = name; name = name; inline = none }
unfolding split_arg
split_arg-plain name h = ap (λ found. split_found name found) (plain (is_long name))
  where
    plain : (long : Bool) → (if long then split_at b'=' name else none) ≡ none
    plain true = split_at-none name (long_NoEquals name h)
    plain false = refl

not_marker : (name v : List ℕ) → IsLongName name → text_eq (name ++ v) (codes "--") ≡ false
unfolding text_eq
not_marker [] v h = absurd h
not_marker (a ∷ []) v h = absurd h
not_marker (a ∷ b ∷ []) v h = absurd h
not_marker (a ∷ b ∷ c ∷ s) v h = ground arith

plain_marker : (name : List ℕ) → IsLongName name → text_eq name (codes "--") ≡ false
unfolding text_eq
plain_marker [] h = absurd h
plain_marker (a ∷ []) h = absurd h
plain_marker (a ∷ b ∷ []) h = absurd h
plain_marker (a ∷ b ∷ c ∷ s) h = ground arith

bind_inr_right : {A : Type 0} (m : ParseError ⊎ A) → (m >>= inr) ≡ m
bind_inr_right (inl e) = refl
bind_inr_right (inr a) = refl

module _ {F : Type 0} (std : Std F) where
  demand-joined :
      (name v : List ℕ) (set : DecodeArgs F → List ℕ → ParseError ⊎ DecodeArgs F)
      → IsLongName name
      → by_name (flags std) name ≡ some (valued set)
      → demand std (name ++ b'=' ∷ v) ≡ change (λ args. set args v)
  unfolding demand
  demand-joined name v set long known = rw (split_arg-joined name v long, known) refl

  demand-plain :
      (name : List ℕ) (set : DecodeArgs F → List ℕ → ParseError ⊎ DecodeArgs F)
      → IsLongName name
      → by_name (flags std) name ≡ some (valued set)
      → demand std name ≡ value set
  unfolding demand
  demand-plain name set long known = rw (split_arg-plain name long, known) refl

  -- For a flag of two dashes that takes a value, `--flag=value` gives what `--flag value` gives,
  -- whatever stands behind it, if the value does not look like an option.
  pub decode_loop-joined :
      (name v : List ℕ) (set : DecodeArgs F → List ℕ → ParseError ⊎ DecodeArgs F)
      (args : DecodeArgs F) (rest : List (List ℕ))
      → IsLongName name
      → by_name (flags std) name ≡ some (valued set)
      → looks_like_option v ≡ false
      → decode_loop std false args ((name ++ b'=' ∷ v) ∷ rest)
        ≡ decode_loop std false args (name ∷ v ∷ rest)
  unfolding decode_loop
  decode_loop-joined name v set args [] long known h =
      rw
        (
          not_marker name (b'=' ∷ v) long,
          demand-joined name v set long known,
          plain_marker name long,
          demand-plain name set long known,
          h,
        )
        (sym (bind_inr_right (set args v)))
  decode_loop-joined name v set args (next ∷ rest) long known h =
      rw
        (
          not_marker name (b'=' ∷ v) long,
          demand-joined name v set long known,
          plain_marker name long,
          demand-plain name set long known,
          h,
        )
        refl
