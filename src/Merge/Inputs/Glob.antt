-- ===== src/Merge/Inputs/Glob.antt =====
-- `glob_match` of rust/src/merge.rs decides the wildcard match, for names without a `*`.
use mie_decoder.Common.{
  ℕ, zero, suc, ◌+◌, ◌*◌, ◌≤◌, ◌<◌, ◌≡◌, ◌≢◌, ◌↔◌, ◌⊎◌, refl, Bool, true, false, ◌||◌, Option, none,
  some, List, [], ◌∷◌, ◌==◌, arith, length, if_intro, All, Bool-cases, inl, inr,
}
use mie_decoder.Merge.Inputs.{only_stars_left, Star, back_to_star, glob_loop, glob_match}

-- `*` stands for any run, `?` for one character, and every other character for itself.
pub data Matches : List ℕ → List ℕ → Type 0 where
  empty : Matches [] []
  one : {t : ℕ} {pat txt : List ℕ} → Matches pat txt → Matches (b'?' ∷ pat) (t ∷ txt)
  same :
      {p t : ℕ} {pat txt : List ℕ}
      → p ≢ b'*'
      → p ≡ t
      → Matches pat txt
      → Matches (p ∷ pat) (t ∷ txt)
  skip : {p : ℕ} {pat txt : List ℕ} → p ≡ b'*' → Matches pat txt → Matches (p ∷ pat) txt
  take :
      {p t : ℕ} {pat txt : List ℕ} → p ≡ b'*' → Matches (p ∷ pat) txt → Matches (p ∷ pat) (t ∷ txt)

abbrev fits : ℕ → ℕ → Bool
fits p t = p == b'?' || p == t

char_inv :
    {p t : ℕ} {pat txt : List ℕ}
    → p ≢ b'*'
    → Matches (p ∷ pat) (t ∷ txt)
    → (fits p t ≡ true) × Matches pat txt
char_inv h (one m) = (refl, m)
char_inv h (same n e m) = (ground arith, m)
char_inv h (skip e m) = absurd (h e)
char_inv h (take e m) = absurd (h e)

char_intro :
    {p t : ℕ} {pat txt : List ℕ}
    → p ≢ b'*'
    → fits p t ≡ true
    → Matches pat txt
    → Matches (p ∷ pat) (t ∷ txt)
char_intro {p} {t} {pat} {txt} h f m = elim (Bool-cases (p == b'?')) [
  | inl any ↦ let e : p ≡ b'?' = ground (arith, any) in rw e (one m)
  | inr other ↦ same h (ground (arith, other)) m
]

star_inv :
    {p t : ℕ} {pat txt : List ℕ}
    → p ≡ b'*'
    → Matches (p ∷ pat) (t ∷ txt)
    → Matches pat (t ∷ txt) ⊎ Matches (p ∷ pat) txt
star_inv e (one m) = absurd (omega arith)
star_inv e (same n s m) = absurd (n e)
star_inv e (skip s m) = inl m
star_inv e (take s m) = inr m

star_at_end : {p : ℕ} {pat : List ℕ} → p ≡ b'*' → Matches (p ∷ pat) [] → Matches pat []
star_at_end e (skip s m) = m

char_at_end : {p : ℕ} {pat : List ℕ} → p ≢ b'*' → ¬ Matches (p ∷ pat) []
char_at_end h (skip s m) = h s

-- Stars before a star add nothing.
star_star :
    {p q : ℕ} {pat : List ℕ} (txt : List ℕ)
    → p ≡ b'*'
    → q ≡ b'*'
    → Matches (p ∷ q ∷ pat) txt
    → Matches (q ∷ pat) txt
star_star [] e f m = star_at_end e m
star_star (t ∷ txt) e f m = elim (star_inv e m) [
  | inl now ↦ now
  | inr later ↦ take f (star_star txt e f later)
]

-- A character that fits may be taken at once, whatever the star before it would take.
take_now :
    {p q : ℕ} {pat : List ℕ} (t : ℕ) (txt : List ℕ)
    → p ≡ b'*'
    → q ≢ b'*'
    → Matches (p ∷ q ∷ pat) (t ∷ txt)
    → Matches (p ∷ pat) txt
take_now t [] e h m = elim (star_inv e m) [
  | inl now ↦ skip e (char_inv h now).1
  | inr later ↦ absurd (char_at_end h (star_at_end e later))
]
take_now t (u ∷ txt) e h m = elim (star_inv e m) [
  | inl now ↦ skip e (char_inv h now).1
  | inr later ↦ take e (take_now u txt e h later)
]

only_stars-sound : (pat : List ℕ) → only_stars_left pat ≡ true → Matches pat []
unfolding only_stars_left
only_stars-sound [] h = empty
only_stars-sound (p ∷ pat) h = skip (ground arith) (only_stars-sound pat (ground arith))

only_stars_complete : (pat : List ℕ) → Matches pat [] → only_stars_left pat ≡ true
unfolding only_stars_left
only_stars_complete [] m = refl
only_stars_complete (p ∷ pat) (skip e m) = ground (arith, only_stars_complete pat m)

abbrev pub HasNoStar : List ℕ → Type 0
HasNoStar = All (λ (t : ℕ). t ≢ b'*')

-- The loop ended with an answer, and it is the answer to the question `G`.
abbrev pub Answers : Type 0 → Option Bool → Type 0
Answers G none = ⊥
Answers G (some true) = G
Answers G (some false) = ¬ G

-- `G` is whether the whole pattern matches the whole name; every pattern is shorter than `k`.
module _ (G : Type 0) (k : ℕ) where
  -- What the last star stands for; `m` bounds the text from its mark on.
  abbrev Held : ℕ → List ℕ → List ℕ → Star → Type 0
  Held m pat txt none = G → Matches pat txt
  Held m pat txt (some (behind, mark)) =
      (G ↔ Matches (b'*' ∷ behind) mark)
      × (Matches behind mark → Matches pat txt)
      × (length txt ≤ length mark)
      × (length mark ≤ m)
      × (length behind < k)
      × HasNoStar mark

  record Inv (fuel m : ℕ) (pat txt : List ℕ) (star : Star) : Type 0 where
    enough : Matches pat txt → G
    needed : G → Matches (b'*' ∷ pat) txt
    held : Held m pat txt star
    plain : HasNoStar txt
    text : length txt ≤ m
    pattern_ : length pat < k
    fuelled : m * k + length pat < fuel

  Inv-mark :
      (fuel m : ℕ) (pat txt : List ℕ)
      → G ↔ Matches (b'*' ∷ pat) txt
      → HasNoStar txt
      → length txt ≤ m
      → length pat < k
      → m * k + length pat < fuel
      → Inv fuel m pat txt (some (pat, txt))
  Inv-mark fuel m pat txt e plain t p f = record {
    enough = λ d. e.1 (skip refl d);
    needed = e.0;
    held = (e, λ d. d, omega arith, t, p, plain);
    plain = plain;
    text = t;
    pattern_ = p;
    fuelled = f;
  }

  Held-char :
      (m : ℕ) (p t : ℕ) (pat txt : List ℕ) (star : Star)
      → p ≢ b'*'
      → Held m (p ∷ pat) (t ∷ txt) star
      → Held m pat txt star
  Held-char m p t pat txt none h held = λ g. (char_inv h (held g)).1
  Held-char m p t pat txt (some (behind, mark)) h (e, down, longer, small, short, plain) =
      (e, λ d. (char_inv h (down d)).1, omega arith, small, short, plain)

  back-Answers :
      (fuel m : ℕ) (pat : List ℕ) (t : ℕ) (txt : List ℕ) (star : Star)
      (round : List ℕ → List ℕ → Star → Option Bool)
      → ((m' : ℕ) (pat' txt' : List ℕ) (star' : Star)
          → Inv fuel m' pat' txt' star'
          → Answers G (round pat' txt' star'))
      → Inv (suc fuel) m pat (t ∷ txt) star
      → ¬ Matches pat (t ∷ txt)
      → Answers G (back_to_star star round)
  back-Answers fuel m pat t txt none round ih i miss = λ g. miss (i.held g)
  back-Answers fuel m pat t txt (some (behind, [])) round ih i miss = absurd (omega (arith, i.held))
  back-Answers fuel zero pat t txt (some (behind, c ∷ mark)) round ih i miss =
      absurd (omega (arith, i.held))
  back-Answers fuel (suc m) pat t txt (some (behind, c ∷ mark)) round ih i miss =
      let (e, down, longer, small, short, plain) = i.held in
      let further : G → Matches (b'*' ∷ behind) mark = λ g. elim (star_inv refl (e.0 g)) [
        | inl now ↦ absurd (miss (down now))
        | inr later ↦ later
      ] in
      ih m behind mark (some (behind, mark)) (
        Inv-mark fuel m behind mark (further, λ d. e.1 (take refl d)) plain.1 (omega arith) short
          (omega (arith, i.fuelled)))

  loop-Answers :
      (fuel m : ℕ) (pat txt : List ℕ) (star : Star)
      → Inv fuel m pat txt star
      → Answers G (glob_loop fuel pat txt star)
  unfolding glob_loop
  loop-Answers zero m pat txt star i = absurd (omega (arith, i.fuelled))
  loop-Answers (suc fuel) m pat [] star i = at_end (Bool-cases (only_stars_left pat))
    where
      at_end :
          (only_stars_left pat ≡ true) ⊎ (only_stars_left pat ≡ false)
          → Answers G (some (only_stars_left pat))
      at_end (inl all) = rw all (i.enough (only_stars-sound pat all))
      at_end (inr some_other) = rw some_other (λ g.
          absurd
            (ground (arith, some_other, only_stars_complete pat (star_at_end refl (i.needed g)))))
  loop-Answers (suc fuel) m [] (t ∷ txt) star i =
      back-Answers fuel m [] t txt star (glob_loop fuel) (loop-Answers fuel) i (λ d. elim d [ ])
  loop-Answers (suc fuel) m (p ∷ pat) (t ∷ txt) star i =
      if_intro (Answers G) (fits p t) _ _
        (λ fit.
          let char : p ≢ b'*' = λ e. ground (arith, i.plain.0) in
          loop-Answers fuel m pat txt star (record {
            enough = λ d. i.enough (char_intro char fit d);
            needed = λ g. take_now t txt refl char (i.needed g);
            held = Held-char m p t pat txt star char i.held;
            plain = i.plain.1;
            text = omega (arith, i.text);
            pattern_ = omega (arith, i.pattern_);
            fuelled = omega (arith, i.fuelled);
          }))
        (λ misfit.
          if_intro (Answers G) (p == b'*') _ _
            (λ star_here.
              let e : p ≡ b'*' = ground (arith, star_here) in
              loop-Answers fuel m pat (t ∷ txt) (some (pat, t ∷ txt)) (
                Inv-mark fuel m pat (t ∷ txt)
                  (λ g. rw e at (star_star (t ∷ txt) refl e (i.needed g)), λ d. i.enough (rw e d))
                  i.plain i.text (omega (arith, i.pattern_)) (omega (arith, i.fuelled))))
            (λ other.
              back-Answers fuel m (p ∷ pat) t txt star (glob_loop fuel) (loop-Answers fuel) i
                (λ d. ground (arith, other, misfit, (char_inv (λ e. ground (arith, other)) d).0))))

-- For a name without a `*` the loop ends with an answer, true exactly when the pattern matches.
pub glob_match-Answers :
    (pat txt : List ℕ) → HasNoStar txt → Answers (Matches pat txt) (glob_match pat txt)
unfolding glob_match
glob_match-Answers pat txt plain =
    loop-Answers (Matches pat txt) (length pat + 1) ((length txt + 1) * (length pat + 1))
      (length txt) pat txt none
      (record {
        enough = λ d. d;
        needed = λ g. skip refl g;
        held = λ g. g;
        plain = plain;
        text = omega arith;
        pattern_ = omega arith;
        fuelled = grind arith;
      })

-- A name that begins with a `*` and goes on is matched by the pattern that is one `*`, but the loop
-- answers no for it: it takes the star of the name for the one of the pattern.
pub glob_match_star_name :
    (c : ℕ) (rest : List ℕ)
    → Matches (b'*' ∷ []) (b'*' ∷ c ∷ rest)
      × (glob_match (b'*' ∷ []) (b'*' ∷ c ∷ rest) ≡ some false)
unfolding glob_match glob_loop
glob_match_star_name c rest =
    let fuel : (length (b'*' ∷ c ∷ rest) + 1) * (length {A = ℕ} (b'*' ∷ []) + 1)
        ≡ suc (suc (length rest * 2 + 4)) =
      omega arith in
    (any_run (b'*' ∷ c ∷ rest), rw fuel refl)
  where
    any_run : (txt : List ℕ) → Matches (b'*' ∷ []) txt
    any_run [] = skip refl empty
    any_run (t ∷ txt) = take refl (any_run txt)
