-- ===== src/Examples/Order.antt =====
-- The row order of rust/src/order.rs on a small stream.
use mie_decoder.Common.{ℕ, refl, none, some, List, [], ◌∷◌, arith}
use mie_decoder.Models.Message.{MieMessage, Item, ok, err}
use mie_decoder.Order.{sort_run, order_rows, next}
use mie_decoder.Order.Sorted.{IsSortedRun, sort_run-IsSortedRun}
use mie_decoder.Order.Rows.{rest, drain}
use mie_decoder.Order.Served.{Served, next-Served}
use mie_decoder.Order.Stream.{SamePlaces, drain-SamePlaces}
use mie_decoder.Examples.Stream.{cmd, at_second, message}

-- Of one time: terminal 7, a pinned record, terminal 5.
abbrev of_second : List (MieMessage ℕ)
of_second =
    message (at_second 1) (some (record cmd { rt = 7 }))
    ∷ message (at_second 1) none
    ∷ message (at_second 1) (some cmd)
    ∷ []

sort_run-IsSortedRun_example : IsSortedRun of_second (sort_run of_second)
sort_run-IsSortedRun_example = sort_run-IsSortedRun of_second

abbrev stream : List (Item ℕ ℕ)
stream =
    ok (message (at_second 1) (some (record cmd { rt = 7 })))
    ∷ ok (message (at_second 1) (some cmd))
    ∷ err 3
    ∷ ok (message (at_second 2) (some cmd))
    ∷ []

next-Served_example : Served (rest (order_rows stream 8)) (next (order_rows stream 8))
unfolding order_rows
next-Served_example =
    next-Served (order_rows stream 8)
      (record { cap = omega arith; below = omega arith; ended = λ h. refl })

drain-SamePlaces_example : SamePlaces (drain 5 (order_rows stream 8)) stream
drain-SamePlaces_example = drain-SamePlaces 5 stream 8 (omega arith)
