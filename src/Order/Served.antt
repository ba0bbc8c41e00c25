-- ===== src/Order/Served.antt =====
-- Every call of `next` of rust/src/order.rs returns, and the calls give what was to be given.
use mie_decoder.Common.{
  ℕ, zero, suc, ◌+◌, ◌≡◌, ◌≤◌, ◌<◌, refl, sym, ap, ◌∙◌, Bool, true, false, Option, none, some, List,
  [], ◌∷◌, ◌++◌, arith, length,
}
use mie_decoder.Models.Message.{MieMessage, Item, ok, err, Row, row, end, exhausted}
use mie_decoder.Models.Message.Drain.{gather_rows}
use mie_decoder.Order.{
  sort_run, Ordered, flush, flush_capped, push_buf, accept, pull, next_row, next,
}
use mie_decoder.Order.Rows.{drain, rest, IsValid, at_state, pull-Gives}

module _ {F E : Type 0} where
  -- The rounds that a call may need.
  abbrev rounds : List (Item F E) → Bool → ℕ
  rounds inner true = 1
  rounds inner false = length inner + 2

  push_buf-rounds :
      (i : List (Item F E)) (b o : List (MieMessage F)) (c : ℕ) (m : MieMessage F)
      → rounds
          (push_buf (at_state i b o c false none) m).inner
          (push_buf (at_state i b o c false none) m).done
        ≡ length i + 2
  unfolding push_buf flush_capped
  push_buf-rounds i b o c m = ground arith

  rounds-le : (inner : List (Item F E)) (d : Bool) → rounds inner d ≤ length inner + 2
  rounds-le inner true = omega arith
  rounds-le inner false = omega arith

  pull-rounds :
      (i : List (Item F E)) (b : List (MieMessage F)) (c : ℕ)
      → rounds
          (pull (at_state i b [] c false none) i).inner
          (pull (at_state i b [] c false none) i).done
        < length i + 2
  unfolding flush accept
  pull-rounds [] [] c = omega arith
  pull-rounds [] (m ∷ b) c = omega arith
  pull-rounds (err e ∷ i) [] c = omega arith
  pull-rounds (err e ∷ i) (m ∷ b) c = omega arith
  pull-rounds (ok m ∷ i) [] c = omega (arith, push_buf-rounds i [] [] c m)
  pull-rounds (ok m ∷ i) (h ∷ b) c =
      ground
        (arith, push_buf-rounds i (h ∷ b) [] c m, push_buf-rounds i [] (sort_run (h ∷ b) ++ []) c m)

  -- What a call says: the item is the first of those that the adapter still had to give.
  abbrev pub Served : List (Item F E) → Ordered F E × Row F E → Type 0
  Served items (s, row i) = IsValid s × (items ≡ i ∷ rest s)
  Served items (s, end) = items ≡ []
  Served items (s, exhausted) = ⊥

  next_row-Served :
      (fuel : ℕ) (i : List (Item F E)) (b o : List (MieMessage F)) (c : ℕ) (d : Bool) (p : Option E)
      → IsValid (at_state i b o c d p)
      → rounds i d ≤ fuel
      → Served (rest (at_state i b o c d p)) (next_row fuel (at_state i b o c d p))
  unfolding next_row
  next_row-Served zero i b o c true p v h = absurd (omega arith)
  next_row-Served zero i b o c false p v h = absurd (omega arith)
  next_row-Served (suc fuel) i b (m ∷ o) c d p v h =
      (record { cap = v.cap; below = v.below; ended = v.ended }, refl)
  next_row-Served (suc fuel) i b [] c d (some e) v h =
      (record { cap = v.cap; below = v.below; ended = v.ended }, refl)
  next_row-Served (suc fuel) i b [] c true none v h = refl
  next_row-Served (suc fuel) i b [] c false none v h =
      let s = pull (at_state i b [] c false none) i in
      let (valid, gives) = pull-Gives i b c v.below in
      rw gives at (
        next_row-Served fuel s.inner s.buf s.out s.max_group s.done s.pending valid
          (omega (arith, pull-rounds i b c)))

  -- On a valid state every call of `next` returns: it gives the first of the items that are left and
  -- keeps the state valid, or it ends and none is left.
  pub next-Served : (s : Ordered F E) → IsValid s → Served (rest s) (next s)
  unfolding next
  next-Served s v =
      next_row-Served (length s.inner + 2) s.inner s.buf s.out s.max_group s.done s.pending v
        (rounds-le s.inner s.done)

  gather-drain :
      (n : ℕ) (items : List (Item F E)) (r : Ordered F E × Row F E)
      → Served items r
      → length items < suc n
      → ((s : Ordered F E) → IsValid s → length (rest s) < n → drain n s ≡ rest s)
      → gather_rows (drain n) r ≡ items
  gather-drain n items (s, row i) (v, e) h ih =
      ap (λ l. i ∷ l) (ih s v (omega (arith, ap length e))) ∙ sym e
  gather-drain n items (s, end) e h ih = sym e
  gather-drain n items (s, exhausted) e h ih = absurd e

  -- Calls of `next`, one more than items at least, give all that the adapter has to give.
  pub drain-rest : (n : ℕ) (s : Ordered F E) → IsValid s → length (rest s) < n → drain n s ≡ rest s
  unfolding drain
  drain-rest zero s v h = absurd (omega arith)
  drain-rest (suc n) s v h = gather-drain n (rest s) (next s) (next-Served s v) h (drain-rest n)
