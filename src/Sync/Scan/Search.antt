-- ===== src/Sync/Scan/Search.antt =====
-- The scan of the 2-byte grid finds the first offset that passes its test.
use mie_decoder.Common.{
  ℕ, zero, suc, ◌+◌, ◌*◌, ◌≤◌, ◌<◌, ◌≡◌, inl, inr, Bool, true, false, none, some, arith, Bool-cases,
}
use mie_decoder.Sync.Scan.{scan_grid}

-- `c` is the first offset from `o` on, in steps of 2 and below `stop`, that passes.
pub record IsEarliest (test : ℕ → Bool) (o stop c : ℕ) : Type 0 where
  pub steps : ℕ
  pub on_grid : c ≡ o + 2 * steps
  pub below : c < stop
  pub passes : test c ≡ true
  pub none_before : (k : ℕ) → k < steps → test (o + 2 * k) ≡ false

fails_before :
    (test : ℕ → Bool) (o n : ℕ)
    → test o ≡ false
    → ((k : ℕ) → k < n → test (o + 2 + 2 * k) ≡ false)
    → (k : ℕ) → k < suc n
    → test (o + 2 * k) ≡ false
fails_before test o n now later zero h = let here : o + 2 * 0 ≡ o = omega arith in rw here now
fails_before test o n now later (suc k) h =
    let there : o + 2 * suc k ≡ o + 2 + 2 * k = omega arith in rw there (later k (omega arith))

-- A hit is the first offset that passes.
pub scan-IsEarliest :
    (fuel : ℕ) (test : ℕ → Bool) (o stop c : ℕ)
    → scan_grid fuel test o stop ≡ some c
    → IsEarliest test o stop c
unfolding scan_grid
scan-IsEarliest zero test o stop c e = absurd (ground arith)
scan-IsEarliest (suc fuel) test o stop c e = elim (Bool-cases (test o)) [
  | inl pass ↦
      let here : c ≡ o = ground (arith, pass) in
      record {
        steps = 0;
        on_grid = omega arith;
        below = ground (arith, pass);
        passes = rw here pass;
        none_before = λ k h. absurd (omega arith);
      }
  | inr fail ↦
      let ih = scan-IsEarliest fuel test (o + 2) stop c (ground (arith, fail)) in
      record {
        steps = suc ih.steps;
        on_grid = omega (arith, ih.on_grid);
        below = ih.below;
        passes = ih.passes;
        none_before = fails_before test o ih.steps fail ih.none_before;
      }
]

-- With enough fuel a miss means that no offset passes.
pub scan_complete :
    (fuel : ℕ) (test : ℕ → Bool) (o stop : ℕ)
    → stop ≤ o + 2 * fuel
    → scan_grid fuel test o stop ≡ none
    → (k : ℕ) → o + 2 * k < stop
    → test (o + 2 * k) ≡ false
unfolding scan_grid
scan_complete zero test o stop h e k below = absurd (omega arith)
scan_complete (suc fuel) test o stop h e zero below =
    let here : o + 2 * 0 ≡ o = omega arith in rw here (ground arith)
scan_complete (suc fuel) test o stop h e (suc k) below =
    let there : o + 2 * suc k ≡ o + 2 + 2 * k = omega arith in
    rw there (scan_complete fuel test (o + 2) stop (omega arith) (ground arith) k (omega arith))
