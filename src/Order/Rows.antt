-- ===== src/Order/Rows.antt =====
-- What the adapter of rust/src/order.rs gives: the items cut into runs, each run in row order.
use mie_decoder.Common.{
  ℕ, zero, suc, ◌≡◌, ◌≤◌, ◌<◌, refl, ap, Bool, true, false, Option, none, some, List, [], ◌∷◌, ◌++◌,
  leb, arith, length, append-nil, if◌then◌else◌, Bool-cases, inl, inr,
}
use mie_decoder.Models.Message.{MieMessage, Item, ok, err}
use mie_decoder.Models.Message.Drain.{gather_rows}
use mie_decoder.Order.{
  sort_run, Ordered, opens_new_run, flush, flush_capped, push_buf, accept, pull, next,
}

-- A run is put in row order, a run that reached the cap is given as it came.
pub data Block (F E : Type 0) : Type 0 where
  run capped : List (MieMessage F) → Block F E
  failed : E → Block F E

module _ {F E : Type 0} where
  abbrev pub oks : List (MieMessage F) → List (Item F E)
  oks [] = []
  oks (m ∷ ms) = ok m ∷ oks ms

  abbrev pub failures : Option E → List (Item F E)
  failures none = []
  failures (some e) = err e ∷ []

  -- A run that has grown by a record, `more` being what follows it.
  abbrev pub grown :
      ℕ → List (MieMessage F) → (List (MieMessage F) → List (Block F E)) → List (Block F E)
  grown cap buf more = if leb cap (length buf) then capped buf ∷ more [] else more buf

  -- The runs of the items, the records of `buf` having come before: a run ends where the timestamp
  -- changes, at an error, at the end, and at the cap.
  unfoldable pub blocks : ℕ → List (Item F E) → List (MieMessage F) → List (Block F E)
  blocks cap [] buf = run buf ∷ []
  blocks cap (err e ∷ items) buf = run buf ∷ failed e ∷ blocks cap items []
  blocks cap (ok msg ∷ items) buf =
      if opens_new_run buf msg
      then run buf ∷ grown cap (msg ∷ []) (blocks cap items)
      else grown cap (buf ++ msg ∷ []) (blocks cap items)

  abbrev pub emit : List (Block F E) → List (Item F E)
  emit [] = []
  emit (run buf ∷ bs) = oks (sort_run buf) ++ emit bs
  emit (capped buf ∷ bs) = oks buf ++ emit bs
  emit (failed e ∷ bs) = err e ∷ emit bs

  -- Calls of `next` until it ends, on fuel.
  unfoldable pub drain : ℕ → Ordered F E → List (Item F E)
  drain zero s = []
  drain (suc n) s = gather_rows (drain n) (next s)

  -- What an adapter still gives.
  abbrev pub later : Bool → ℕ → List (Item F E) → List (MieMessage F) → List (Item F E)
  later true cap items buf = []
  later false cap items buf = emit (blocks cap items buf)

  abbrev pub rest : Ordered F E → List (Item F E)
  rest s = oks s.out ++ (failures s.pending ++ later s.done s.max_group s.inner s.buf)

  -- The cap has room for a record, a buffered run is below it, and nothing is buffered at the end.
  pub record IsValid (s : Ordered F E) : Type 0 where
    pub cap : 1 ≤ s.max_group
    pub below : length s.buf < s.max_group
    pub ended : s.done ≡ true → s.buf ≡ []

  pub oks-append : (xs ys : List (MieMessage F)) → oks (xs ++ ys) ≡ oks xs ++ oks ys
  oks-append [] ys = refl
  oks-append (x ∷ xs) ys = ap (λ l. ok x ∷ l) (oks-append xs ys)

  abbrev pub at_state :
      List (Item F E)
      → List (MieMessage F)
      → List (MieMessage F)
      → ℕ
      → Bool
      → Option E
      → Ordered F E
  at_state inner buf out cap done pending = record {
    inner = inner;
    buf = buf;
    out = out;
    max_group = cap;
    done = done;
    pending = pending;
  }

  -- A valid state that gives these runs.
  abbrev pub Gives : List (Block F E) → Ordered F E → Type 0
  Gives bs s = IsValid s × (rest s ≡ emit bs)

  pub if-Gives :
      (t : Bool) (bs cs : List (Block F E)) {x y : Ordered F E}
      → Gives bs x
      → Gives cs y
      → Gives (if t then bs else cs) (if t then x else y)
  if-Gives true bs cs g h = g
  if-Gives false bs cs g h = h

  pub push_buf-Gives :
      (i : List (Item F E)) (b : List (MieMessage F)) (c : ℕ) (m : MieMessage F)
      → 1 ≤ c
      → Gives (grown c (b ++ m ∷ []) (blocks c i)) (push_buf (at_state i b [] c false none) m)
  unfolding push_buf flush_capped
  push_buf-Gives i b c m pos = elim (Bool-cases (leb c (length (b ++ m ∷ [])))) [
    | inl full ↦
        rw (push_buf, full)
          (
            record { cap = pos; below = pos; ended = λ h. refl },
            ap (λ l. oks l ++ emit (blocks c i [])) (append-nil (b ++ m ∷ [])),
          )
    | inr room ↦
        rw (push_buf, room)
          (record { cap = pos; below = ground (arith, room); ended = λ h. cc }, refl)
  ]

  -- A run of two at least is below the cap only if the cap has room for the first record of the next.
  pub fresh-Gives :
      (i : List (Item F E)) (b : List (MieMessage F)) (c : ℕ) (m : MieMessage F)
      → 2 ≤ c
      → Gives
          (run b ∷ grown c (m ∷ []) (blocks c i))
          (push_buf (at_state i [] (sort_run b ++ []) c false none) m)
  unfolding push_buf
  fresh-Gives i b c m two =
      let room : leb c 1 ≡ false = ground arith in
      rw (push_buf, room)
        (
          record { cap = omega arith; below = omega arith; ended = λ h. cc },
          ap (λ l. oks l ++ emit (blocks c i (m ∷ []))) (append-nil (sort_run b)),
        )

  pub accept-Gives :
      (i : List (Item F E)) (b : List (MieMessage F)) (c : ℕ) (m : MieMessage F)
      → length b < c
      → Gives (blocks c (ok m ∷ i) b) (accept (at_state i b [] c false none) m)
  unfolding accept blocks flush
  accept-Gives i [] c m below = push_buf-Gives i [] c m (omega arith)
  accept-Gives i (h ∷ b) c m below =
      if-Gives (opens_new_run (h ∷ b) m) (run (h ∷ b) ∷ grown c (m ∷ []) (blocks c i))
        (grown c (h ∷ b ++ m ∷ []) (blocks c i)) (fresh-Gives i (h ∷ b) c m (omega arith))
        (push_buf-Gives i (h ∷ b) c m (omega arith))

  pub pull-Gives :
      (i : List (Item F E)) (b : List (MieMessage F)) (c : ℕ)
      → length b < c
      → Gives (blocks c i b) (pull (at_state i b [] c false none) i)
  unfolding flush blocks sort_run
  pull-Gives [] [] c below = (record { cap = below; below = below; ended = λ h. refl }, refl)
  pull-Gives [] (m ∷ b) c below = (
    record { cap = omega arith; below = omega arith; ended = λ h. refl },
    ap (λ l. oks l ++ []) (append-nil (sort_run (m ∷ b))),
  )
  pull-Gives (err e ∷ i) [] c below = (record { cap = below; below = below; ended = λ h. cc }, refl)
  pull-Gives (err e ∷ i) (m ∷ b) c below = (
    record { cap = omega arith; below = omega arith; ended = λ h. cc },
    ap (λ l. oks l ++ err e ∷ emit (blocks c i [])) (append-nil (sort_run (m ∷ b))),
  )
  pull-Gives (ok m ∷ i) b c below = accept-Gives i b c m below
