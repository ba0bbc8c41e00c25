-- ===== src/Examples/Merge.antt =====
-- The merge of rust/src/merge.rs on two short recordings, and its inputs.
use Prim.Native.String.{String}
use mathlib.Core.List.{Perm}
use mie_decoder.Common.{
  ℕ, ◌≡◌, ◌↔◌, ◌⊎◌, inl, inr, refl, true, false, none, some, List, [], ◌∷◌, ◌++◌, All, arith,
}
use mie_decoder.Models.Message.{Item, ok, err}
use mie_decoder.Error.{MieError}
use mie_decoder.Merge.Inputs.{glob_match, read_manifest}
use mie_decoder.Merge.Inputs.Glob.{Matches, Answers, glob_match-Answers, glob_match_star_name}
use mie_decoder.Merge.Inputs.Manifest.{
  Line, Content, line_text, render, paths_of, read_manifest-render,
}
use mie_decoder.Merge.Dedup.{DedupWindow, key_of, is_duplicate}
use mie_decoder.Merge.Dedup.Laws.{HasWitness, is_duplicate_iff, IsTrimmed, is_duplicate-IsTrimmed}
use mie_decoder.Merge.State.{MergedRecordIter, global, new, collapse, with_delta_scope}
use mie_decoder.Merge.Step.{unread, next}
use mie_decoder.Merge.Step.Progress.{Outcome, next-Outcome, drain}
use mie_decoder.Merge.Ascends.{IsAscending}
use mie_decoder.Merge.Complete.{records}
use mie_decoder.Merge.Opened.{merge-IsAscending}
use mie_decoder.Merge.Opened.Records.{in_files, merge-records}
use mie_decoder.Merge.Opened.Accepts.{IsMade, CanLead, new-CanLead}
use mie_decoder.Examples.Stream.{micros, cmd, at_second, message}

-- The second file breaks off behind its first record.
abbrev files : List (String × List (Item ℕ MieError))
files =
    ("a.mie", ok (message (at_second 1) (some cmd)) ∷ ok (message (at_second 4) (some cmd)) ∷ [])
    ∷ (
      "b.mie",
      ok (message (at_second 2) (some cmd)) ∷ err (MieError.unrecoverable_sync_loss 40 3) ∷ [],
    )
    ∷ []

abbrev made : (r : MieError ⊎ MergedRecordIter ℕ) → IsMade r → MergedRecordIter ℕ
made (inl e) m = elim m [ ]
made (inr s) m = s

abbrev merged : MergedRecordIter ℕ
unfolding new
merged = made (new micros files none true false) tt

merge-IsAscending_example :
    IsAscending micros none 0 (drain micros 9 (with_delta_scope (collapse merged true 1000) global))
unfolding new merged
merge-IsAscending_example =
    merge-IsAscending micros none files true false true 1000 9 global merged refl
      (((omega arith, (omega arith, tt)), ((omega arith, tt), tt)))

merge-records_example : Perm (records (drain micros 9 merged)) (in_files files)
unfolding new merged unread
merge-records_example = merge-records micros files none true false 9 merged refl (omega arith)

new-CanLead_example :
    IsMade (new micros files none true false)
    ↔ All (λ (r : String × List (Item ℕ MieError)). CanLead true r.1) files
new-CanLead_example = new-CanLead micros files none true false

next-Outcome_example : Outcome merged (next micros merged)
next-Outcome_example = next-Outcome micros merged

-- A window that has seen one record.
abbrev window : DedupWindow
window = record {
  window_us = 100;
  max_survivors = 1;
  survivors = record { us = 500; file_index = 0; key = key_of (message (at_second 1) none) } ∷ [];
  capped_warned = false;
}

is_duplicate_iff_example :
    ((is_duplicate window 450 1 (message (at_second 1) none)).1 ≡ true)
    ↔ HasWitness window.window_us 450 1 (message (at_second 1) none) window.survivors
is_duplicate_iff_example = is_duplicate_iff window 450 1 (message (at_second 1) none)

is_duplicate-IsTrimmed_example :
    IsTrimmed window 450 1
      (message (at_second 1) (some cmd))
      (is_duplicate window 450 1 (message (at_second 1) (some cmd)))
is_duplicate-IsTrimmed_example =
    is_duplicate-IsTrimmed window 450 1 (message (at_second 1) (some cmd))
      (record { cap = omega arith; bounded = omega arith })

-- The pattern `*.m?e` and the name `a.mie`.
abbrev pattern_text : List ℕ
pattern_text = b'*' ∷ b'.' ∷ b'm' ∷ b'?' ∷ b'e' ∷ []

abbrev name_text : List ℕ
name_text = b'a' ∷ b'.' ∷ b'm' ∷ b'i' ∷ b'e' ∷ []

glob_match-Answers_example :
    Answers (Matches pattern_text name_text) (glob_match pattern_text name_text)
glob_match-Answers_example =
    glob_match-Answers pattern_text name_text
      (omega arith, (omega arith, (omega arith, (omega arith, (omega arith, tt)))))

glob_match_star_name_example :
    Matches (b'*' ∷ []) (b'*' ∷ b'a' ∷ b'.' ∷ [])
    × (glob_match (b'*' ∷ []) (b'*' ∷ b'a' ∷ b'.' ∷ []) ≡ some false)
glob_match_star_name_example = glob_match_star_name b'a' (b'.' ∷ [])

-- Blanks and the path `a b`, a comment, an empty line.
abbrev manifest : List Line
manifest =
    record {
      left = b' ' ∷ [];
      content = Content.path (b'a' ∷ b' ' ∷ b'b' ∷ []) (b'\t' ∷ []);
      with_cr = true;
    }
    ∷ record { left = []; content = Content.comment (b'x' ∷ []); with_cr = false }
    ∷ record { left = []; content = Content.nothing; with_cr = true }
    ∷ []

-- `b`, a carriage return, and the end of the file.
abbrev unterminated : Line
unterminated = record { left = []; content = Content.path (b'b' ∷ []) []; with_cr = true }

read_manifest-render_example :
    read_manifest (render manifest ++ line_text unterminated)
    ≡ paths_of (manifest ++ unterminated ∷ [])
read_manifest-render_example =
    read_manifest-render manifest unterminated
      (
        record {
          blanks = (refl, tt);
          content = (
            (refl, omega arith),
            (refl, omega arith),
            (omega arith, (omega arith, (omega arith, tt))),
            (refl, tt),
          );
        },
        (
          record { blanks = tt; content = (omega arith, tt) },
          (record { blanks = tt; content = tt }, tt),
        ),
      )
      (record {
        blanks = tt;
        content = ((refl, omega arith), (refl, omega arith), (omega arith, tt), tt);
      })
