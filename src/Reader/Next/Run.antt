-- ===== src/Reader/Next/Run.antt =====
-- Whole runs of rust/src/reader.rs: `next` always answers, and the records come in file order.
use mie_decoder.Common.{false, ℕ, zero, suc, ◌+◌, ◌*◌, ◌≤◌, ◌<◌, ◌≡◌, Bool, true, arith, if_intro}
use mie_decoder.Models.Timestamp.{Floats}
use mie_decoder.Models.Message.{ok, err}
use mie_decoder.Reader.State.{RecordIter, Step, continue, yield, stop}
use mie_decoder.Reader.Decode.{decode_one, Answer, item, end, exhausted, follow, next_loop, next}
use mie_decoder.Reader.Next.{is_spurious_type, IsWhole, IsOpen, Frame, Outcome, Progress}
use mie_decoder.Reader.Next.Progress.{decode_one-Progress}

module _ (fl : Floats) where
  open fl use {F}

  -- What an answer says of the state before and after. An error and the end are final.
  abbrev pub Answered : RecordIter F → RecordIter F × Answer F → Type 0
  Answered s (s', item (ok msg)) =
      (s.offset ≤ msg.file_offset)
      × (0 < msg.type_word.word_count)
      × (s'.offset ≡ msg.file_offset + msg.type_word.word_count * 2)
      × (s'.offset ≤ s.file_len)
      × (s'.msg_count ≡ s.msg_count + 1)
      × (s'.done ≡ s.done)
      × (s.strict ≡ true → msg.file_offset ≡ s.offset)
      × (msg.type_word.error ≡ false → is_spurious_type msg.type_word ≡ false → IsWhole msg)
  Answered s (s', item (err e)) = (s'.done ≡ true) × (s'.msg_count ≡ s.msg_count)
  Answered s (s', end) = (s'.done ≡ true) × (s'.msg_count ≡ s.msg_count)
  Answered s (s', exhausted) = ⊥

  -- A round that continues hands its state on.
  answer_later :
      (s s' : RecordIter F) (r : RecordIter F × Answer F)
      → Frame s s'
      → Outcome s s' continue
      → Frame s' r.0 × Answered s' r
      → Frame s r.0 × Answered s r
  answer_later s s' (r, item (ok msg)) frame outcome a = ground arith
  answer_later s s' (r, item (err e)) frame outcome a = ground arith
  answer_later s s' (r, end) frame outcome a = ground arith
  answer_later s s' (r, exhausted) frame outcome a = absurd a.1

  follow-Answered :
      (more : RecordIter F → RecordIter F × Answer F) (s : RecordIter F) (r : RecordIter F × Step F)
      → Progress s r
      → (Frame s r.0
          → s.offset < r.0.offset
          → r.0.offset ≤ s.file_len
          → Frame r.0 (more r.0).0 × Answered r.0 (more r.0))
      → Frame s (follow fl more r).0 × Answered s (follow fl more r)
  follow-Answered more s (s', continue) p rest =
      answer_later s s' (more s') p.0 p.1 (rest p.0 p.1.0 p.1.4)
  follow-Answered more s (s', yield (ok msg)) p rest = ground arith
  follow-Answered more s (s', yield (err e)) p rest = ground arith
  follow-Answered more s (s', stop) p rest = ground arith

  pub Frame-IsOpen : (s s' : RecordIter F) → Frame s s' → IsOpen s → IsOpen s'
  Frame-IsOpen s s' f o = ground arith

  next_loop-Answered :
      (fuel : ℕ) (advisory : Bool) (s : RecordIter F)
      → IsOpen s
      → s.file_len < s.offset + fuel
      → 0 < fuel
      → Frame s (next_loop fl fuel advisory s).0 × Answered s (next_loop fl fuel advisory s)
  unfolding next_loop
  next_loop-Answered zero advisory s open_ h pos = absurd (omega arith)
  next_loop-Answered (suc fuel) advisory s open_ h pos =
      let s' = (decode_one fl advisory s).0 in
      follow-Answered (next_loop fl fuel advisory) s (decode_one fl advisory s)
        (decode_one-Progress fl advisory s open_)
        (λ frame forward inside.
          next_loop-Answered fuel advisory s' (Frame-IsOpen s s' frame open_)
            (omega (arith, frame.file_len)) (omega (arith, frame.file_len)))

  -- On an open file a call of `next` always answers. A record that it returns lies whole in the file,
  -- at the old offset in strict mode, else there or behind it, and right before the new one, and has its
  -- whole payload unless it is errored or spurious; after an error and after the end the iterator is
  -- done; the file, the mode and the format stay.
  pub next-Answered :
      (advisory : Bool) (s : RecordIter F)
      → IsOpen s
      → Frame s (next fl advisory s).0 × Answered s (next fl advisory s)
  unfolding next
  next-Answered advisory s open_ =
      if_intro (λ (r : RecordIter F × Answer F). Frame s r.0 × Answered s r) s.done _ _
        (λ finished. ground arith)
        (λ live.
          ground (
            arith,
            next_loop-Answered (s.file_len + 1) advisory s open_ (omega arith) (omega arith),
          ))
