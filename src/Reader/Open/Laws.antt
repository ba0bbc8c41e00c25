-- ===== src/Reader/Open/Laws.antt =====
-- A file that rust/src/reader.rs opens: its format, the end of its decode, and what comes of a file
-- in which no record is found.
use mie_decoder.Common.{
  ℕ, suc, ◌+◌, ◌^◌, ◌<◌, min, ◌≡◌, refl, ◌≢◌, ◌↔◌, inl, inr, Bool, true, false, Option, none, some,
  List, [], ◌∷◌, arith, Option-cases, length,
}
use mie_decoder.Models.{TimestampFormat}
use mie_decoder.Models.Timestamp.{Floats}
use mie_decoder.Models.Message.{err}
use mie_decoder.Error.{MieError}
use mie_decoder.Decode.Read.{read_u16}
use mie_decoder.Decode.Probe.{probe_timestamp_format, outcome_of}
use mie_decoder.Sync.Validate.{max_scan_bytes}
use mie_decoder.Sync.Scan.{ScanHit, find_first_record, diagnose_header_scan_failure}
use mie_decoder.Reader.State.{RecordIter}
use mie_decoder.Reader.Decode.{next}
use mie_decoder.Reader.Next.{IsOpen}
use mie_decoder.Reader.Next.Order.{IsDecoded, collect, collect_done, collect-IsDecoded}
use mie_decoder.Reader.Open.{
  MieFileReader, default_resolved_format, resolve_auto_format, check_forced_format,
  resolve_format_for_hit, diagnose_no_records, format_hint, start_at, find_start, iter,
  opens_on_terminator,
}

probe_settled :
    (buf : List ℕ) (o n : ℕ) → (probe_timestamp_format buf o n).format ≢ TimestampFormat.auto
unfolding probe_timestamp_format outcome_of
probe_settled buf o n e = ground arith

module _ {F : Type 0} where
  hit_settled :
      (r : MieFileReader F) (buf : List ℕ) (hit : ScanHit)
      → (resolve_format_for_hit r buf hit).0 ≢ TimestampFormat.auto
  unfolding resolve_format_for_hit default_resolved_format resolve_auto_format check_forced_format
  hit_settled r buf hit e = ground (arith, probe_settled buf hit.offset r.detect_records)

  start_settled :
      (r : MieFileReader F) (hint : Option TimestampFormat) (o : Option ScanHit)
      → (start_at r hint o).format ≢ TimestampFormat.auto
  unfolding default_resolved_format
  start_settled r hint none e = ground arith
  start_settled r hint (some hit) e = hit_settled r r.mmap hit e

  -- Whatever format was asked for, the iterator decodes with IRIG or with Standard.
  pub iter-settled : (r : MieFileReader F) → (iter r).1.resolved_format ≢ TimestampFormat.auto
  unfolding iter find_start
  iter-settled r =
      start_settled r (format_hint r) (
        find_first_record r.mmap (length r.mmap) (format_hint r) max_scan_bytes r.lookahead_records)

  iter-IsOpen : (r : MieFileReader F) → length r.mmap < 2 ^ 63 → IsOpen (iter r).1
  unfolding iter
  iter-IsOpen r small = record { whole = refl; small = small }

  -- Without a first record the decode ends at once or has an error to report.
  no_record :
      (r : MieFileReader F) (hint : Option TimestampFormat)
      → r.strict ≡ true
      → opens_on_terminator (read_u16 r.mmap 0) ≡ false
      → let start = start_at r hint none in
        (start.empty ≡ false)
        × (start.early_done ≡ false)
        × ((e : MieError) × (start.pending ≡ some e))
  unfolding diagnose_no_records
  no_record r hint strict words =
      elim (Option-cases
        (diagnose_header_scan_failure r.mmap (length r.mmap) hint max_scan_bytes)) [
          | inl nothing ↦ (
            ground (arith, words),
            ground (arith, words, nothing),
            (
              MieError.no_valid_records r.path (min (length r.mmap) max_scan_bytes),
              ground (arith, words, nothing),
            ),
          )
          | inr ((o, n, room), cut) ↦ (
            ground (arith, words),
            ground (arith, words, cut),
            (MieError.first_record_truncated o n room, ground (arith, words, cut)),
          )
        ]

module _ (fl : Floats) where
  open fl use {F}

  -- The error of the construction is all that the iterator gives.
  pending_only :
      (n : ℕ) (advisory : Bool) (s : RecordIter F) (e : MieError)
      → s.done ≡ false
      → s.pending_error ≡ some e
      → (collect fl (suc n) advisory s).0 ≡ err e ∷ []
  unfolding collect next
  pending_only n advisory s e live pending =
      let s' = record s { done = true; pending_error = none } in
      ground (arith, live, pending, collect_done fl n advisory s' refl)

  -- Where no first record is found in a file that does not open on the null Type Word, a strict
  -- decode gives one error and no record.
  pub no_first_record :
      (advisory : Bool) (n : ℕ) (r : MieFileReader F)
      → find_first_record r.mmap (length r.mmap) (format_hint r) max_scan_bytes r.lookahead_records
        ≡ none
      → opens_on_terminator (read_u16 r.mmap 0) ≡ false
      → r.strict ≡ true
      → (e : MieError) × ((collect fl (suc n) advisory (iter r).1).0 ≡ err e ∷ [])
  unfolding iter find_start
  no_first_record advisory n r miss words strict =
      let (empty, live, (e, pending)) = no_record r (format_hint r) strict words in
      (e, pending_only n advisory (iter r).1 e (rw miss live) (rw miss pending))

  -- The decode of a whole file below 2^63 bytes, with a call for each byte and one more, ends with the
  -- iterator done. Its records lie one behind the other in the file, in strict mode without a gap,
  -- and have their whole payload unless they are errored or spurious; an error comes last, and the
  -- message count is grown by the number of records.
  pub iter-IsDecoded :
      (advisory : Bool) (r : MieFileReader F)
      → length r.mmap < 2 ^ 63
      → IsDecoded fl (iter r).1 (collect fl (length r.mmap + 1) advisory (iter r).1)
  unfolding iter
  iter-IsDecoded advisory r small =
      collect-IsDecoded fl (length r.mmap + 1) advisory (iter r).1 (iter-IsOpen r small)
        (omega arith) (omega arith)

  start_empty :
      (r : MieFileReader F) (hint : Option TimestampFormat) (o : Option ScanHit)
      → ((start_at r hint o).empty ≡ true)
        ↔ (o ≡ none) × (opens_on_terminator (read_u16 r.mmap 0) ≡ true)
  unfolding diagnose_no_records
  start_empty r hint none = (λ h. ground arith, λ h. ground arith)
  start_empty r hint (some hit) = (λ h. absurd (ground arith), λ h. absurd (ground arith))

  start_done :
      (r : MieFileReader F) (hint : Option TimestampFormat) (o : Option ScanHit)
      → (start_at r hint o).empty ≡ true
      → (start_at r hint o).early_done ≡ true
  unfolding diagnose_no_records
  start_done r hint none h = ground arith
  start_done r hint (some hit) h = absurd (ground arith)

  -- A recording counts as empty exactly when no first record is found and the file opens on the null
  -- Type Word, and then the decode gives nothing at all, not even an error.
  pub empty_recording_iff :
      (advisory : Bool) (n : ℕ) (r : MieFileReader F)
      → (((iter r).0.empty_recording ≡ true)
          ↔ (find_first_record r.mmap
                (length r.mmap)
                (format_hint r)
                max_scan_bytes
                r.lookahead_records
              ≡ none)
            × (opens_on_terminator (read_u16 r.mmap 0) ≡ true))
        × ((iter r).0.empty_recording ≡ true → (collect fl n advisory (iter r).1).0 ≡ [])
  unfolding iter find_start
  empty_recording_iff advisory n r =
      let o =
        find_first_record r.mmap (length r.mmap) (format_hint r) max_scan_bytes
          r.lookahead_records in
      (
        start_empty r (format_hint r) o,
        λ h. rw (collect_done fl n advisory (iter r).1 (start_done r (format_hint r) o h)) refl,
      )
