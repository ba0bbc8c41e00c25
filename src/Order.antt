-- ===== src/Order.antt =====
-- rust/src/order.rs: rows of one timestamp in the order of RT, subaddress and direction.
pub mod Keys
pub mod Chunks
pub mod Groups
pub mod Sorted
pub mod Rows
pub mod Served
pub mod Laws
pub mod Stream
use mie_decoder.Common.{
  ℕ, zero, suc, ◌+◌, max, Bool, true, false, ◌&&◌, ◌||◌, not, Option, none, some, List, [], ◌∷◌,
  ◌++◌, ltb, leb, ◌==◌, if◌then◌else◌, length, stable_sort,
}
use mie_decoder.Models.{Direction}
use mie_decoder.Models.Timestamp.{Timestamp, to_total_microseconds}
use mie_decoder.Models.Message.{MieMessage, Item, ok, err, Row, row, end, exhausted}

abbrev pub max_sort_group_min : ℕ
max_sort_group_min = 1

abbrev pub max_sort_group_max : ℕ
max_sort_group_max = 1_048_576

abbrev pub default_max_sort_group : ℕ
default_max_sort_group = 4096

abbrev pub SortKey : Type 0
SortKey = ℕ × ℕ × ℕ

abbrev pub direction_rank : Direction → ℕ
direction_rank Direction.receive = 0
direction_rank Direction.transmit = 1

-- The order that is derived for `Option<(u8, u8, u8)>`.
unfoldable pub key_le : Option SortKey → Option SortKey → Bool
key_le none k = true
key_le (some (a, b, c)) none = false
key_le (some (a, b, c)) (some (a', b', c')) =
    ltb a a' || (a == a' && (ltb b b' || (b == b' && leb c c')))

unfoldable pub same_group : Timestamp → Timestamp → Bool
unfolding to_total_microseconds
same_group (Timestamp.irig x) (Timestamp.irig y) =
    to_total_microseconds x == to_total_microseconds y
same_group (Timestamp.irig x) (Timestamp.standard y) = false
same_group (Timestamp.standard x) (Timestamp.irig y) = false
same_group (Timestamp.standard x) (Timestamp.standard y) = x.raw_value == y.raw_value

module _ {F : Type 0} where
  unfoldable pub sort_key : MieMessage F → Option SortKey
  sort_key msg = elim (msg.command_word) [
    | none ↦ none
    | some cw ↦ some (cw.rt, cw.subaddress, direction_rank cw.direction)
  ]

-- One anchor record and the pinned records behind it.
abbrev pub Chunk : Type 0 → Type 0
Chunk F = Option SortKey × List (MieMessage F)

abbrev pub chunk_le : {F : Type 0} → Chunk F → Chunk F → Bool
chunk_le (k, group) (k', group') = key_le k k'

module _ {F : Type 0} where
  -- `chunks.last_mut()`, and the push onto it.
  unfoldable pub pin : List (Chunk F) → MieMessage F → List (Chunk F)
  pin [] msg = (none, msg ∷ []) ∷ []
  pin ((k, group) ∷ []) msg = (k, group ++ msg ∷ []) ∷ []
  pin (c ∷ d ∷ rest) msg = c ∷ pin (d ∷ rest) msg

  abbrev pub push_keyed : List (Chunk F) → MieMessage F → Option SortKey → List (Chunk F)
  push_keyed chunks msg none = pin chunks msg
  push_keyed chunks msg (some k) = chunks ++ (some k, msg ∷ []) ∷ []

  -- The `for` of `sort_run`.
  unfoldable pub split_from : List (Chunk F) → List (MieMessage F) → List (Chunk F)
  unfolding pin sort_key
  split_from chunks [] = chunks
  split_from chunks (msg ∷ buf) = split_from (push_keyed chunks msg (sort_key msg)) buf

  unfoldable pub flatten : List (Chunk F) → List (MieMessage F)
  flatten [] = []
  flatten ((k, group) ∷ rest) = group ++ flatten rest

  -- A single chunk is not sorted.
  unfoldable pub sort_chunks : List (Chunk F) → List (Chunk F)
  unfolding key_le
  sort_chunks chunks = if ltb 1 (length chunks) then stable_sort chunk_le chunks else chunks

  unfoldable pub sort_run : List (MieMessage F) → List (MieMessage F)
  unfolding split_from flatten sort_chunks
  sort_run buf = flatten (sort_chunks (split_from [] buf))

module _ {F : Type 0} where
  abbrev pub opens_new_run : List (MieMessage F) → MieMessage F → Bool
  opens_new_run [] msg = false
  opens_new_run (head ∷ rest) msg = not (same_group head.timestamp msg.timestamp)

-- `inner` is what the inner iterator still gives. `out` is the source's vector read from its end, so
-- that `pop` takes the head.
pub record Ordered (F E : Type 0) : Type 0 where
  pub inner : List (Item F E)
  pub buf : List (MieMessage F)
  pub out : List (MieMessage F)
  pub max_group : ℕ
  pub done : Bool
  pub pending : Option E

module _ {F E : Type 0} where
  unfoldable pub flush : Ordered F E → Ordered F E
  unfolding sort_run
  flush s = elim (s.buf) [
    | [] ↦ s
    | m ∷ rest ↦ record s { buf = []; out = sort_run (m ∷ rest) ++ s.out }
  ]

  unfoldable pub flush_capped : Ordered F E → Ordered F E
  flush_capped s = record s { buf = []; out = s.buf ++ s.out }

  -- The push, and the flush at the cap.
  unfoldable pub push_buf : Ordered F E → MieMessage F → Ordered F E
  unfolding flush_capped
  push_buf s msg =
      let s' = record s { buf = s.buf ++ msg ∷ [] } in
      if leb s.max_group (length (s.buf ++ msg ∷ [])) then flush_capped s' else s'

  unfoldable pub accept : Ordered F E → MieMessage F → Ordered F E
  unfolding flush push_buf same_group
  accept s msg =
      let flushed = flush s in
      if opens_new_run s.buf msg then push_buf flushed msg else push_buf s msg

  -- One round of the `loop` of `next` behind the two early returns: the inner iterator's item.
  abbrev pub pull : Ordered F E → List (Item F E) → Ordered F E
  pull s [] = flush (record s { done = true })
  pull s (err e ∷ rest) = flush (record s { inner = rest; pending = some e })
  pull s (ok msg ∷ rest) = accept (record s { inner = rest }) msg

  abbrev pub serve :
      (Ordered F E → Ordered F E × Row F E)
      → Ordered F E
      → List (MieMessage F)
      → Option E
      → Bool
      → Ordered F E × Row F E
  serve more s (msg ∷ out) pending done = (record s { out = out }, row (ok msg))
  serve more s [] (some e) done = (record s { pending = none }, row (err e))
  serve more s [] none true = (s, end)
  serve more s [] none false = more (pull s s.inner)

  unfoldable pub next_row : ℕ → Ordered F E → Ordered F E × Row F E
  unfolding accept flush
  next_row zero s = (s, exhausted)
  next_row (suc fuel) s = serve (next_row fuel) s s.out s.pending s.done

  -- A round for each item of the inner iterator, one for its end, and one to give or to end.
  unfoldable pub next : Ordered F E → Ordered F E × Row F E
  unfolding next_row
  next s = next_row (length s.inner + 2) s

  unfoldable pub order_rows : List (Item F E) → ℕ → Ordered F E
  order_rows items max_group = record {
    inner = items;
    buf = [];
    out = [];
    max_group = max max_group max_sort_group_min;
    done = false;
    pending = none;
  }
