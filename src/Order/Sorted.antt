-- ===== src/Order/Sorted.antt =====
-- What `sort_run` of rust/src/order.rs gives: the groups of a run in the order of their Command Words.
use mathlib.Core.List.{Perm}
use mathlib.Core.List.Perm
use mie_decoder.Common.{
  ◌≡◌, refl, sym, ap, ◌∙◌, inl, inr, true, Option, none, some, List, [], ◌∷◌, ◌++◌, arith,
  append_assoc, append-nil, All, exchange, select, stable_sort, insert_sorted, stable_sort-All,
  stable_sort-perm, stable_sort_stable, stable_sort-IsSorted, Bool-cases,
}
use mie_decoder.Models.{CommandWord}
use mie_decoder.Models.Message.{MieMessage}
use mie_decoder.Order.{
  SortKey, direction_rank, key_le, sort_key, Chunk, chunk_le, pin, push_keyed, split_from, flatten,
  sort_chunks, sort_run,
}
use mie_decoder.Order.Keys.{key_le_trans, chunk_le_total, chunk_le_trans}
use mie_decoder.Order.Chunks.{IsAnchored, IsSplit, split_from-IsSplit}
use mie_decoder.Order.Groups.{
  HasNoCommand, IsGroup, laid_out, Ascending, begins_with, groups_of, laid_out-groups_of, pins_lem,
  groups_lem, groups-perm, has_key, sorted-Ascending, select-groups,
}

module _ {F : Type 0} where
  -- The test for a single chunk changes nothing.
  sort_chunks_lem : (cs : List (Chunk F)) → sort_chunks cs ≡ stable_sort chunk_le cs
  unfolding sort_chunks stable_sort insert_sorted
  sort_chunks_lem [] = refl
  sort_chunks_lem (c ∷ []) = refl
  sort_chunks_lem (c ∷ d ∷ cs) = ground arith

  insert_leading :
      (g : List (MieMessage F)) (cs : List (Chunk F))
      → insert_sorted chunk_le (none, g) cs ≡ (none, g) ∷ cs
  unfolding insert_sorted key_le
  insert_leading g [] = refl
  insert_leading g (c ∷ cs) = refl

  flatten-append : (cs ds : List (Chunk F)) → flatten (cs ++ ds) ≡ flatten cs ++ flatten ds
  unfolding flatten
  flatten-append [] ds = refl
  flatten-append ((k, g) ∷ cs) ds =
      ap (λ l. g ++ l) (flatten-append cs ds) ∙ sym (append_assoc g (flatten cs) (flatten ds))

  flatten-pin :
      (cs : List (Chunk F)) (msg : MieMessage F) → flatten (pin cs msg) ≡ flatten cs ++ msg ∷ []
  unfolding flatten pin
  flatten-pin [] msg = refl
  flatten-pin ((k, g) ∷ []) msg = rw (append-nil, append-nil) refl
  flatten-pin ((k, g) ∷ d ∷ cs) msg =
      ap (λ l. g ++ l) (flatten-pin (d ∷ cs) msg)
      ∙ sym (append_assoc g (flatten (d ∷ cs)) (msg ∷ []))

  flatten-push :
      (cs : List (Chunk F)) (msg : MieMessage F) (o : Option SortKey)
      → flatten (push_keyed cs msg o) ≡ flatten cs ++ msg ∷ []
  unfolding flatten
  flatten-push cs msg none = flatten-pin cs msg
  flatten-push cs msg (some k) = flatten-append cs ((some k, msg ∷ []) ∷ [])

  -- Splitting loses nothing and moves nothing.
  flatten-split_from :
      (cs : List (Chunk F)) (buf : List (MieMessage F))
      → flatten (split_from cs buf) ≡ flatten cs ++ buf
  unfolding split_from
  flatten-split_from cs [] = sym (append-nil (flatten cs))
  flatten-split_from cs (msg ∷ buf) =
      flatten-split_from (push_keyed cs msg (sort_key msg)) buf
      ∙ ap (λ l. l ++ buf) (flatten-push cs msg (sort_key msg))
      ∙ append_assoc (flatten cs) (msg ∷ []) buf

  insert-flatten-perm :
      (c : Chunk F) (cs : List (Chunk F))
      → Perm (flatten (insert_sorted chunk_le c cs)) (c.1 ++ flatten cs)
  unfolding insert_sorted flatten
  insert-flatten-perm c [] = Perm.rfl
  insert-flatten-perm c (d ∷ cs) = elim (Bool-cases (chunk_le c d)) [
    | inl before ↦ rw (insert_sorted, before) Perm.rfl
    | inr behind ↦
        rw (insert_sorted, behind)
          (Perm.trans (Perm.append_left d.1 (insert-flatten-perm c cs))
            (exchange d.1 c.1 (flatten cs)))
  ]

  sort-flatten-perm : (cs : List (Chunk F)) → Perm (flatten (stable_sort chunk_le cs)) (flatten cs)
  unfolding stable_sort flatten
  sort-flatten-perm [] = Perm.rfl
  sort-flatten-perm (c ∷ cs) =
      Perm.trans (insert-flatten-perm c (stable_sort chunk_le cs))
        (Perm.append_left c.1 (sort-flatten-perm cs))

  -- Sorting a run rearranges its records.
  pub sort_run-perm : (buf : List (MieMessage F)) → Perm (sort_run buf) buf
  unfolding sort_run
  sort_run-perm buf =
      rw (sort_chunks_lem (split_from [] buf))
        (rw (flatten-split_from [] buf) at (sort-flatten-perm (split_from [] buf)))

  same_key_le :
      (k : Option SortKey) (c d : Chunk F)
      → has_key k c ≡ true
      → has_key k d ≡ true
      → chunk_le c d ≡ true
  same_key_le k (kc, g) (kd, h) p q = ground (arith, key_le_trans kc k kd)

  -- What the sorted run is: the same leading records, and behind them the groups of the run, each
  -- whole and with its own records in their order, ascending by the Command Words that they begin
  -- with, those of one RT, subaddress and direction in the order of their arrival.
  pub record IsSortedRun (buf run : List (MieMessage F)) : Type 0 where
    pub leading : List (MieMessage F)
    pub groups : List (List (MieMessage F))
    pub sorted : List (List (MieMessage F))
    pub no_commands : All HasNoCommand leading
    pub grouped : All IsGroup groups
    pub before : buf ≡ leading ++ laid_out groups
    pub after : run ≡ leading ++ laid_out sorted
    pub rearranged : Perm sorted groups
    pub ascending : Ascending sorted
    pub stable : (w : CommandWord) → select (begins_with w) sorted ≡ select (begins_with w) groups

  chunks-IsSortedRun :
      (leading buf : List (MieMessage F)) (cs : List (Chunk F))
      → All HasNoCommand leading
      → All IsAnchored cs
      → leading ++ flatten cs ≡ buf
      → IsSortedRun buf (leading ++ flatten (stable_sort chunk_le cs))
  chunks-IsSortedRun leading buf cs none_led anchored whole =
      let sorted = stable_sort chunk_le cs in
      let kept = stable_sort-All chunk_le IsAnchored cs anchored in
      record {
        leading = leading;
        groups = groups_of cs;
        sorted = groups_of sorted;
        no_commands = none_led;
        grouped = groups_lem cs anchored;
        before = sym whole ∙ ap (λ l. leading ++ l) (sym (laid_out-groups_of cs));
        after = ap (λ l. leading ++ l) (sym (laid_out-groups_of sorted));
        rearranged = groups-perm (stable_sort-perm chunk_le cs);
        ascending =
            sorted-Ascending sorted kept
              (stable_sort-IsSorted chunk_le chunk_le_total chunk_le_trans cs);
        stable = λ w.
            let k : Option SortKey = some (w.rt, w.subaddress, direction_rank w.direction) in
            select-groups w sorted kept
            ∙ ap groups_of (stable_sort_stable chunk_le (has_key k) (same_key_le k) cs)
            ∙ sym (select-groups w cs anchored);
      }

  split-IsSortedRun :
      (buf : List (MieMessage F)) (cs : List (Chunk F))
      → IsSplit cs
      → flatten cs ≡ buf
      → IsSortedRun buf (flatten (stable_sort chunk_le cs))
  unfolding stable_sort flatten
  split-IsSortedRun buf [] h e = chunks-IsSortedRun [] buf [] tt tt e
  split-IsSortedRun buf (c ∷ cs) (inl anchored, h) e =
      chunks-IsSortedRun [] buf (c ∷ cs) tt (anchored, h) e
  split-IsSortedRun buf ((some k, g) ∷ cs) (inr leading, h) e = absurd leading
  split-IsSortedRun buf ((none, []) ∷ cs) (inr leading, h) e = absurd leading
  split-IsSortedRun buf ((none, m ∷ pins) ∷ cs) (inr leading, h) e =
      rw (insert_leading (m ∷ pins) (stable_sort chunk_le cs))
        (chunks-IsSortedRun (m ∷ pins) buf cs (pins_lem (m ∷ pins) leading) h e)

  -- A run is its leading records without a Command Word and the groups of one record with a Command
  -- Word and those without that follow it; sorted it is the same leading records and the same groups,
  -- each whole, in ascending order of RT, subaddress and direction, receive before transmit, and
  -- groups that agree in all three keep their order.
  pub sort_run-IsSortedRun : (buf : List (MieMessage F)) → IsSortedRun buf (sort_run buf)
  unfolding sort_run
  sort_run-IsSortedRun buf = rw (sort_chunks_lem (split_from [] buf)) (
      split-IsSortedRun buf (split_from [] buf) (split_from-IsSplit [] buf tt)
        (flatten-split_from [] buf))
