-- ===== src/Reader/Next/Order.antt =====
-- The items of a whole decode by rust/src/reader.rs, call after call of `next`.
use mie_decoder.Common.{
  false, ◌∙◌, ℕ, zero, suc, ◌+◌, ◌*◌, ◌≤◌, ◌<◌, ◌≡◌, refl, sym, Bool, true, List, [], ◌∷◌, arith,
}
use mie_decoder.Models.Timestamp.{Floats}
use mie_decoder.Models.Message.{Item, ok, err}
use mie_decoder.Error.{MieError}
use mie_decoder.Reader.State.{RecordIter}
use mie_decoder.Reader.Decode.{Answer, item, end, exhausted, next}
use mie_decoder.Reader.Next.{is_spurious_type, IsWhole, IsOpen, Frame}
use mie_decoder.Reader.Next.Run.{Answered, next-Answered, Frame-IsOpen}

-- Records one behind the other between two offsets, and an error as the last item only.
abbrev pub Chained : {F : Type 0} → ℕ → ℕ → List (Item F MieError) → Type 0
Chained lo hi [] = Unit {0}
Chained lo hi (ok msg ∷ rest) =
    (lo ≤ msg.file_offset)
    × (0 < msg.type_word.word_count)
    × (msg.file_offset + msg.type_word.word_count * 2 ≤ hi)
    × Chained (msg.file_offset + msg.type_word.word_count * 2) hi rest
Chained lo hi (err e ∷ rest) = rest ≡ []

-- Records without a gap from an offset on.
abbrev pub Gapless : {F : Type 0} → ℕ → List (Item F MieError) → Type 0
Gapless lo [] = Unit {0}
Gapless lo (ok msg ∷ rest) =
    (msg.file_offset ≡ lo) × Gapless (lo + msg.type_word.word_count * 2) rest
Gapless lo (err e ∷ rest) = Unit {0}

-- Every record that is neither errored nor spurious has its whole payload.
abbrev pub AllWhole : {F : Type 0} → List (Item F MieError) → Type 0
AllWhole [] = Unit {0}
AllWhole (ok msg ∷ rest) =
    (msg.type_word.error ≡ false → is_spurious_type msg.type_word ≡ false → IsWhole msg)
    × AllWhole rest
AllWhole (err e ∷ rest) = AllWhole rest

abbrev pub messages : {F : Type 0} → List (Item F MieError) → ℕ
messages [] = 0
messages (ok msg ∷ rest) = messages rest + 1
messages (err e ∷ rest) = messages rest

module _ (fl : Floats) where
  open fl use {F}

  -- The items up to the end, `more` being the calls that are left.
  abbrev pub gather :
      (RecordIter F → List (Item F MieError) × RecordIter F)
      → RecordIter F × Answer F
      → List (Item F MieError) × RecordIter F
  gather more (s, item i) = (i ∷ (more s).0, (more s).1)
  gather more (s, end) = ([], s)
  gather more (s, exhausted) = ([], s)

  -- `n` calls of `next` at most.
  unfoldable pub collect : ℕ → Bool → RecordIter F → List (Item F MieError) × RecordIter F
  collect zero advisory s = ([], s)
  collect (suc n) advisory s = gather (collect n advisory) (next fl advisory s)

  -- A decode that is over stays over.
  pub collect_done :
      (n : ℕ) (advisory : Bool) (s : RecordIter F) → s.done ≡ true → collect n advisory s ≡ ([], s)
  unfolding collect next
  collect_done zero advisory s h = refl
  collect_done (suc n) advisory s h = ground arith

  pub record IsDecoded (s : RecordIter F) (r : List (Item F MieError) × RecordIter F) : Type 0 where
    pub chained : Chained s.offset s.file_len r.0
    pub gapless : s.strict ≡ true → Gapless s.offset r.0
    pub whole : AllWhole r.0
    pub over : r.1.done ≡ true
    pub counted : r.1.msg_count ≡ s.msg_count + messages r.0

  Chained-at :
      (items : List (Item F MieError)) {lo lo' hi hi' : ℕ}
      → lo' ≡ lo
      → hi' ≡ hi
      → Chained lo hi items
      → Chained lo' hi' items
  Chained-at items p q c = rw (p, q) c

  Gapless-at :
      (items : List (Item F MieError)) {lo lo' : ℕ}
      → lo' ≡ lo
      → Gapless lo' items
      → Gapless lo items
  Gapless-at items p c = rw p at c

  gather-IsDecoded :
      (n : ℕ) (advisory : Bool) (s : RecordIter F) (r : RecordIter F × Answer F)
      → Frame s r.0
      → Answered fl s r
      → (s.offset < r.0.offset → r.0.offset ≤ s.file_len → IsDecoded r.0 (collect n advisory r.0))
      → IsDecoded s (gather (collect n advisory) r)
  gather-IsDecoded n advisory s (s', item (ok msg)) f a rest =
      let later = rest (omega (arith, a)) a.3 in
      record {
        chained = (
          a.0,
          a.1,
          omega (arith, a),
          Chained-at (collect n advisory s').0 (sym a.2) (sym f.file_len) later.chained,
        );
        gapless = λ strict. (
          a.6 strict,
          Gapless-at (collect n advisory s').0 (omega (arith, a.2, a.6 strict))
              (later.gapless (f.strict ∙ strict)),
        );
        whole = (a.7, later.whole);
        over = later.over;
        counted = omega (arith, a.4, later.counted);
      }
  gather-IsDecoded n advisory s (s', item (err e)) f a rest =
      rw (collect_done n advisory s' a.0) (record {
        chained = refl;
        gapless = λ strict. tt;
        whole = tt;
        over = a.0;
        counted = omega (arith, a.1);
      })
  gather-IsDecoded n advisory s (s', end) f a rest = record {
    chained = tt;
    gapless = λ strict. tt;
    whole = tt;
    over = a.0;
    counted = omega (arith, a.1);
  }
  gather-IsDecoded n advisory s (s', exhausted) f a rest = absurd a

  -- On an open file, calling `next` until it ends, with more calls allowed than there are bytes left
  -- and one at least, gives records that lie one behind the other in the file, none of which overlaps
  -- the next or runs past the end, and an error, if there is one, last. In strict mode there is no gap
  -- between them. A record that is neither errored nor spurious has every word of its payload. The
  -- iterator is done then, and its message count has grown by the number of records.
  pub collect-IsDecoded :
      (n : ℕ) (advisory : Bool) (s : RecordIter F)
      → IsOpen s
      → s.file_len < s.offset + n
      → 0 < n
      → IsDecoded s (collect n advisory s)
  unfolding collect
  collect-IsDecoded zero advisory s open_ h pos = absurd (omega arith)
  collect-IsDecoded (suc n) advisory s open_ h pos =
      let s' = (next fl advisory s).0 in
      let (frame, answered) = next-Answered fl advisory s open_ in
      gather-IsDecoded n advisory s (next fl advisory s) frame answered (λ forward inside.
        collect-IsDecoded n advisory s' (Frame-IsOpen fl s s' frame open_)
          (omega (arith, frame.file_len)) (omega (arith, frame.file_len)))
