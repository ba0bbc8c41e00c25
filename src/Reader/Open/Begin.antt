-- ===== src/Reader/Open/Begin.antt =====
-- Where the decode of a file begins in rust/src/reader.rs, and with which error it ends at once.
use mie_decoder.Common.{
  ℕ, ◌+◌, ◌*◌, ◌^◌, ◌<◌, min, ◌≡◌, refl, ◌≢◌, ◌⊎◌, inl, inr, ap, ◌∙◌, sym, Bool, true, false,
  Option, none, some, arith, length, Bool-cases,
}
use mie_decoder.Models.{TimestampFormat}
use mie_decoder.Models.Timestamp.{Floats}
use mie_decoder.Error.{MieError}
use mie_decoder.Decode.Read.{read_u16}
use mie_decoder.Decode.Fields.{decode_type_word}
use mie_decoder.Decode.Probe.{probe_timestamp_format}
use mie_decoder.Sync.Validate.{max_scan_bytes, validate_record}
use mie_decoder.Sync.Validate.Accept.{accepted-IsFramed}
use mie_decoder.Sync.Scan.{ScanHit, find_first_record, diagnose_header_scan_failure}
use mie_decoder.Sync.Scan.Find.{find_first-IsEarliest, find_first-none}
use mie_decoder.Sync.Scan.Homogeneous.{
  is_homogeneous_payload, homogeneity_sample_records, is_homogeneous_total,
}
use mie_decoder.Reader.State.{RecordIter}
use mie_decoder.Reader.Next.Order.{IsDecoded, collect}
use mie_decoder.Reader.Open.{
  MieFileReader, Start, default_resolved_format, resolve_auto_format, check_forced_format,
  resolve_format_for_hit, format_hint, start_at, find_start, iter, diagnose_no_records,
  failure_outcome, opens_on_terminator,
}
use mie_decoder.Reader.Open.Doubt.{IsProbed, IsProbed-probe_error}
use mie_decoder.Reader.Open.Laws.{iter-settled, iter-IsDecoded}

-- The format that the validation of a record is told, if one was asked for.
abbrev pub told : TimestampFormat → Option TimestampFormat
told TimestampFormat.auto = none
told TimestampFormat.irig = some TimestampFormat.irig
told TimestampFormat.standard = some TimestampFormat.standard

module _ {F : Type 0} where
  abbrev pub accepts : MieFileReader F → ℕ → Bool
  accepts r o =
      validate_record r.mmap o (length r.mmap) (told r.input_time_format) r.lookahead_records

  -- The state with which the decode begins. `first` is the word at which the first record starts.
  pub record BeginsAt (r : MieFileReader F) (s : RecordIter F) (first : ℕ) : Type 0 where
    pub accepted : accepts r (2 * first) ≡ true
    pub earliest : (k : ℕ) → k < first → accepts r (2 * k) ≡ false
    pub in_window : 2 * first < min (length r.mmap) max_scan_bytes
    pub offset : s.offset ≡ 2 * first
    pub live : s.done ≡ false
    pub pad :
        (raw : ℕ)
        → read_u16 r.mmap (2 * first) ≡ some raw
        → is_homogeneous_payload r.mmap (2 * first) ((decode_type_word raw).word_count * 2)
          ≡ some true
        → s.pending_error
          ≡ some (MieError.homogeneous_payload r.path (2 * first) homogeneity_sample_records)
    pub no_pad :
        (raw : ℕ)
        → read_u16 r.mmap (2 * first) ≡ some raw
        → is_homogeneous_payload r.mmap (2 * first) ((decode_type_word raw).word_count * 2)
          ≡ some false
        → IsProbed r.strict r.input_time_format
            (probe_timestamp_format r.mmap (2 * first) r.detect_records)
            (2 * first)
            s.pending_error

  -- No record is accepted, and the decode is over or has an error to report.
  pub record BeginsNowhere (r : MieFileReader F) (s : RecordIter F) : Type 0 where
    pub none_accepted :
        (k : ℕ) → 2 * k < min (length r.mmap) max_scan_bytes → accepts r (2 * k) ≡ false
    pub at_end : s.offset ≡ length r.mmap
    pub stops : (s.done ≡ true) ⊎ (s.pending_error ≢ none)

  pub record Begins (r : MieFileReader F) (s : RecordIter F) : Type 0 where
    pub mode : s.strict ≡ r.strict
    pub settled : s.resolved_format ≢ TimestampFormat.auto
    pub as_told :
        r.input_time_format ≢ TimestampFormat.auto → s.resolved_format ≡ r.input_time_format
    pub place : ((first : ℕ) × BeginsAt r s first) ⊎ BeginsNowhere r s

  told_lem : (r : MieFileReader F) → format_hint r ≡ told r.input_time_format
  told_lem r = by_format r.input_time_format refl
    where
      by_format :
          (f : TimestampFormat) → r.input_time_format ≡ f → format_hint r ≡ told r.input_time_format
      by_format TimestampFormat.auto e = rw e refl
      by_format TimestampFormat.irig e = rw e refl
      by_format TimestampFormat.standard e = rw e refl

  format_kept :
      (r : MieFileReader F) (hint : Option TimestampFormat) (o : Option ScanHit)
      → r.input_time_format ≢ TimestampFormat.auto
      → (start_at r hint o).format ≡ r.input_time_format
  unfolding resolve_format_for_hit default_resolved_format resolve_auto_format check_forced_format
  format_kept r hint none n = ground arith
  format_kept r hint (some hit) n = ground arith

  pad_found :
      (r : MieFileReader F) (hit : ScanHit) (raw : ℕ)
      → read_u16 r.mmap hit.offset ≡ some raw
      → is_homogeneous_payload r.mmap hit.offset ((decode_type_word raw).word_count * 2) ≡ some true
      → (resolve_format_for_hit r r.mmap hit).1
        ≡ some (MieError.homogeneous_payload r.path hit.offset homogeneity_sample_records)
  unfolding resolve_format_for_hit
  pad_found r hit raw e h = rw (e, h) refl

  no_pad_found :
      (r : MieFileReader F) (hit : ScanHit) (raw : ℕ)
      → read_u16 r.mmap hit.offset ≡ some raw
      → is_homogeneous_payload r.mmap hit.offset ((decode_type_word raw).word_count * 2)
        ≡ some false
      → IsProbed r.strict r.input_time_format
          (probe_timestamp_format r.mmap hit.offset r.detect_records)
          hit.offset
          (resolve_format_for_hit r r.mmap hit).1
  unfolding resolve_format_for_hit resolve_auto_format check_forced_format
  no_pad_found r hit raw e h =
      rw (e, h)
        (IsProbed-probe_error r.input_time_format r.strict
          (probe_timestamp_format r.mmap hit.offset r.detect_records) hit.offset)

  failure_stops :
      (r : MieFileReader F) (file_len : ℕ) (failure : Option (ℕ × ℕ × ℕ))
      → ((failure_outcome r file_len failure).0 ≡ true)
        ⊎ ((failure_outcome r file_len failure).1 ≢ none)
  failure_stops r file_len none = inr (λ e. cc)
  failure_stops r file_len (some found) = elim (Bool-cases r.strict) [
    | inl strict ↦ inr (rw strict (λ e. cc))
    | inr lenient ↦ inl (rw lenient refl)
  ]

  -- A file without a first record has an end or an error.
  nowhere_stops :
      (r : MieFileReader F) (hint : Option TimestampFormat)
      → let start = start_at r hint none in (start.early_done ≡ true) ⊎ (start.pending ≢ none)
  unfolding diagnose_no_records
  nowhere_stops r hint = elim (Bool-cases (opens_on_terminator (read_u16 r.mmap 0))) [
    | inl y ↦ rw y (inl refl)
    | inr n ↦ rw n (
        failure_stops r (length r.mmap)
          (diagnose_header_scan_failure r.mmap (length r.mmap) hint max_scan_bytes))
  ]

  -- The fields of the iterator that the search for the first record sets.
  abbrev IsStarted : MieFileReader F → RecordIter F → Option ScanHit → Type 0
  IsStarted r s o =
      let start = start_at r (format_hint r) o in
      (s.offset ≡ start.offset) × (s.done ≡ start.early_done) × (s.pending_error ≡ start.pending)

  abbrev found_by : MieFileReader F → Option ScanHit
  found_by r =
      find_first_record r.mmap (length r.mmap) (told r.input_time_format) max_scan_bytes
        r.lookahead_records

  at_hit :
      (r : MieFileReader F) (s : RecordIter F) (hit : ScanHit) (first : ℕ)
      → found_by r ≡ some hit
      → hit.offset ≡ 2 * first
      → ((k : ℕ) → k < first → accepts r (2 * k) ≡ false)
      → accepts r hit.offset ≡ true
      → hit.offset < min (length r.mmap) max_scan_bytes
      → IsStarted r s (some hit)
      → BeginsAt r s first
  at_hit r s hit first found same before now window (eo, ed, ep) =
      let there : ScanHit = record { offset = 2 * first; skipped = hit.skipped } in
      let moved : hit ≡ there = λ i. record { offset = same i; skipped = hit.skipped } in
      let error : s.pending_error ≡ (resolve_format_for_hit r r.mmap there).1 =
        ep ∙ ap (λ (h : ScanHit). (resolve_format_for_hit r r.mmap h).1) moved in
      record {
        accepted = ap (accepts r) (sym same) ∙ now;
        earliest = before;
        in_window = omega (arith, same, window);
        offset = eo ∙ same;
        live = ed;
        pad = λ raw e h. error ∙ pad_found r there raw e h;
        no_pad = λ raw e h. rw error (no_pad_found r there raw e h);
      }

  place_lem :
      (r : MieFileReader F) (s : RecordIter F) (o : Option ScanHit)
      → found_by r ≡ o
      → IsStarted r s o
      → ((first : ℕ) × BeginsAt r s first) ⊎ BeginsNowhere r s
  place_lem r s none e (eo, ed, ep) = inr (record {
    none_accepted = λ k h.
        find_first-none r.mmap (length r.mmap) (told r.input_time_format) max_scan_bytes
          r.lookahead_records k e h;
    at_end = eo;
    stops = elim (nowhere_stops r (format_hint r)) [
      | inl d ↦ inl (ed ∙ d)
      | inr p ↦ inr (λ q. p (sym ep ∙ q))
    ];
  })
  place_lem r s (some hit) e started =
      let (first, skipped) =
        find_first-IsEarliest r.mmap (length r.mmap) (told r.input_time_format) max_scan_bytes
          r.lookahead_records hit e in
      inl (
        first.steps,
        at_hit r s hit first.steps e (omega (arith, first.on_grid))
            (λ k h.
              let even : 0 + 2 * k ≡ 2 * k = omega arith in
              ap (accepts r) (sym even) ∙ first.none_before k h)
            first.passes first.below started,
      )

  -- The decode of a file takes its mode from the reader and a settled format, the one that was asked
  -- for if one was. It begins at the first offset on the two-byte grid of the scan window at which
  -- validation accepts; then it has an error to report if the file is a pad of one repeated record,
  -- and otherwise just where a strict decode finds the format in doubt. If validation accepts at none,
  -- it is over or has an error to report.
  pub iter-Begins : (r : MieFileReader F) → Begins r (iter r).1
  unfolding iter find_start
  iter-Begins r = record {
    mode = refl;
    settled = iter-settled r;
    as_told = format_kept r (format_hint r) (
        find_first_record r.mmap (length r.mmap) (format_hint r) max_scan_bytes
          r.lookahead_records);
    place = place_lem r (iter r).1 (found_by r) refl (
        let same : find_start r ≡ start_at r (format_hint r) (found_by r) =
          ap
            (λ hint.
              start_at r (format_hint r)
                (find_first_record r.mmap (length r.mmap) hint max_scan_bytes r.lookahead_records))
            (told_lem r) in
        (
          ap (λ (x : Start). x.offset) same,
          ap (λ (x : Start). x.early_done) same,
          ap (λ (x : Start). x.pending) same,
        ));
  }

  -- The record of a hit is long enough for the source not to panic where it samples it.
  pub hit-Sampled :
      (r : MieFileReader F) (first raw : ℕ)
      → accepts r (2 * first) ≡ true
      → read_u16 r.mmap (2 * first) ≡ some raw
      → is_homogeneous_payload r.mmap (2 * first) ((decode_type_word raw).word_count * 2) ≢ none
  unfolding validate_record
  hit-Sampled r first raw accepted e =
      let (raw', framed) =
        accepted-IsFramed r.mmap (2 * first) (length r.mmap) (told r.input_time_format)
          r.lookahead_records true (ground arith) in
      let same : raw' ≡ raw = ground (arith, e, framed.read) in
      is_homogeneous_total r.mmap (2 * first) ((decode_type_word raw).word_count * 2)
        (ground (arith, same, framed.least))

module _ (fl : Floats) where
  open fl use {F}

  -- The decode of a whole file below 2^63 bytes, with a call for each byte and one more, ends with the
  -- iterator done. It takes its mode from the reader and a settled format, the one that was asked for
  -- if one was, and begins at the first offset on the two-byte grid of the scan window at which
  -- validation accepts; it has an error to report there if the file is a pad of one repeated record,
  -- and otherwise just where a strict decode finds the format in doubt. If validation accepts at none,
  -- it is over at once or has an error to report. Its records lie one behind the other in the file,
  -- in strict mode without a gap, and have their whole payload unless they are errored or spurious; an
  -- error comes last, and the message count is grown by the number of records.
  pub iter-IsOpened :
      (advisory : Bool) (r : MieFileReader F)
      → length r.mmap < 2 ^ 63
      → Begins r (iter r).1
        × IsDecoded fl (iter r).1 (collect fl (length r.mmap + 1) advisory (iter r).1)
  iter-IsOpened advisory r small = (iter-Begins r, iter-IsDecoded fl advisory r small)
