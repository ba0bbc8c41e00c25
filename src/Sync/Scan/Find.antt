-- ===== src/Sync/Scan/Find.antt =====
-- What the scans of rust/src/sync.rs find, and that a miss leaves nothing unfound.
use mie_decoder.Common.{
  ℕ, ◌+◌, ◌-◌, ◌*◌, ◌^◌, ◌≤◌, ◌<◌, min, ◌≡◌, ◌⊎◌, inl, inr, Bool, true, false, Option, none, some,
  List, arith, Option-cases, saturating_add,
}
use mie_decoder.Models.{TimestampFormat}
use mie_decoder.Sync.Validate.{
  validate_record, validate_record_detailed_impl, is_ok, min_word_count,
}
use mie_decoder.Sync.Validate.Accept.{accepted-IsFramed, IsFramed}
use mie_decoder.Sync.Scan.{ScanHit, scan_grid, find_first_record, recover_sync}
use mie_decoder.Sync.Scan.Search.{IsEarliest, scan-IsEarliest, scan_complete}

-- The offset that is found is the first one on the grid at which validation accepts.
pub find_first-IsEarliest :
    (buf : List ℕ) (file_len : ℕ) (ts : Option TimestampFormat) (max_scan depth : ℕ) (hit : ScanHit)
    → find_first_record buf file_len ts max_scan depth ≡ some hit
    → IsEarliest (λ o. validate_record buf o file_len ts depth) 0 (min file_len max_scan) hit.offset
      × (hit.skipped ≡ hit.offset)
unfolding find_first_record
find_first-IsEarliest buf file_len ts max_scan depth hit e =
    found (Option-cases (scan_grid stop test 0 stop))
  where
    stop : ℕ
    stop = min file_len max_scan

    test : ℕ → Bool
    test o = validate_record buf o file_len ts depth

    found :
        (scan_grid stop test 0 stop ≡ none) ⊎ ((c : ℕ) × (scan_grid stop test 0 stop ≡ some c))
        → IsEarliest test 0 stop hit.offset × (hit.skipped ≡ hit.offset)
    found (inl miss) = absurd (ground (arith, miss))
    found (inr (c, h)) =
        let same : hit.offset ≡ c = ground (arith, h) in
        (rw same (scan-IsEarliest stop test 0 stop c h), ground (arith, h))

-- Where nothing is found, validation accepts nowhere on the grid within the scan window.
pub find_first-none :
    (buf : List ℕ) (file_len : ℕ) (ts : Option TimestampFormat) (max_scan depth k : ℕ)
    → find_first_record buf file_len ts max_scan depth ≡ none
    → 2 * k < min file_len max_scan
    → validate_record buf (2 * k) file_len ts depth ≡ false
unfolding find_first_record
find_first-none buf file_len ts max_scan depth k e h =
    let stop : ℕ = min file_len max_scan in
    let miss : scan_grid stop (λ o. validate_record buf o file_len ts depth) 0 stop ≡ none =
      ground arith in
    let even : 0 + 2 * k ≡ 2 * k = omega arith in
    rw even at (
      scan_complete stop (λ o. validate_record buf o file_len ts depth) 0 stop (omega arith) miss k
        (omega arith))

-- Where recovery resumes.
pub record Recovers (buf : List ℕ) (o file_len : ℕ) (ts : Option TimestampFormat) (max_scan : ℕ)
    (hit : ScanHit) : Type 0 where
  pub words : ℕ
  pub forward : hit.offset ≡ o + 2 + 2 * words
  pub counted : o + hit.skipped ≡ hit.offset
  pub in_window : hit.offset < min file_len (o + max_scan)
  pub raw : ℕ
  pub framed : IsFramed buf hit.offset file_len (min_word_count ts) raw

-- At an offset within the address space, recovery moves forward by a whole number of words, by one
-- at least, and stays within the window; at the place that it finds a record of a known type and of
-- sufficient length lies whole in the file, and the bytes skipped are the distance.
pub recover_sync-Recovers :
    (buf : List ℕ) (o file_len : ℕ) (ts : Option TimestampFormat) (max_scan depth : ℕ)
    (hit : ScanHit)
    → o + 2 < 2 ^ 64
    → recover_sync buf o file_len ts max_scan depth ≡ some hit
    → Recovers buf o file_len ts max_scan hit
unfolding recover_sync
recover_sync-Recovers buf o file_len ts max_scan depth hit small e =
    found (Option-cases (scan_grid stop test (saturating_add o 2) stop))
  where
    stop : ℕ
    stop = min file_len (saturating_add o max_scan)

    test : ℕ → Bool
    test c = is_ok (validate_record_detailed_impl buf c file_len ts depth false)

    accepted :
        (c : ℕ) → test c ≡ true → validate_record_detailed_impl buf c file_len ts depth false ≡ none
    accepted c h = ground arith

    found :
        (scan_grid stop test (saturating_add o 2) stop ≡ none)
          ⊎ ((c : ℕ) × (scan_grid stop test (saturating_add o 2) stop ≡ some c))
        → Recovers buf o file_len ts max_scan hit
    found (inl miss) = absurd (ground (arith, miss))
    found (inr (c, h)) =
        let first = scan-IsEarliest stop test (saturating_add o 2) stop c h in
        let same : hit.offset ≡ c = ground (arith, h) in
        let skip : hit.skipped ≡ c - o = ground (arith, h) in
        let start : saturating_add o 2 ≡ o + 2 = ground arith in
        let window : saturating_add o max_scan ≤ o + max_scan = ground arith in
        let (raw, framed) =
          accepted-IsFramed buf c file_len ts depth false (accepted c first.passes) in
        record {
          words = first.steps;
          forward = omega (arith, same, start, first.on_grid);
          counted = omega (arith, same, skip, start, first.on_grid);
          in_window = omega (arith, same, window, first.below);
          raw = raw;
          framed = rw same framed;
        }
