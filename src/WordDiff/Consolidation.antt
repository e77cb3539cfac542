-- ===== src/WordDiff/Consolidation.antt =====
-- apdiff-viewer/src/diff/word_diff.rs: consolidating the changed segments, and the whole.
pub mod Ends
pub mod Texts
pub mod Offsets
use Prim.Native.String
use Prim.Native.String.{len}
use archipelago_xl.Base.{
  ℕ, zero, suc, ◌+◌, ◌-◌, String, ◌≡◌, refl, Bool, true, false, ◌&&◌, ◌||◌, List, [], ◌∷◌, ltb,
  if◌then◌else◌,
}
use archipelago_xl.WordDiff.Words.{split_into_words, is_whitespace_only, join}
use archipelago_xl.WordDiff.Segments.{
  WordChangeType, insert, delete, equal, WordChangeSegment, Change, TextDiff, create_segment,
  create_equal_segment, old_segments, new_segments,
}

pub record StructuredWordDiffResult : Type 0 where
  pub old_changes : List WordChangeSegment
  pub new_changes : List WordChangeSegment

abbrev pub type_eq : WordChangeType → WordChangeType → Bool
type_eq insert insert = true
type_eq delete delete = true
type_eq equal equal = true
type_eq _ _ = false

abbrev pub next_is : WordChangeType → List WordChangeSegment → Bool
next_is target [] = false
next_is target (x ∷ xs) = type_eq x.change_type target

-- The scan of `find_consolidation_end`, with positions counted from the start of the range:
-- `offset` is the position of the first segment of the list, and `end` the last end so far.
unfoldable pub scan_end :
    WordChangeType → (can_continue : Bool) → (offset end : ℕ) → List WordChangeSegment → ℕ
unfolding is_whitespace_only
scan_end target can_continue offset end [] = end
scan_end target can_continue offset end (segment ∷ segments) =
    let included = scan_end target can_continue (offset + 1) (offset + 1) segments in
    let stopped = scan_end target false (offset + 1) end segments in
    if type_eq segment.change_type target
    then included
    else if type_eq segment.change_type equal && is_whitespace_only segment.text && can_continue
    then if next_is target segments then included else stopped
    else stopped

-- the number of segments that are consolidated, from a changed segment on
unfoldable pub find_consolidation_end : WordChangeSegment → List WordChangeSegment → ℕ
unfolding scan_end
find_consolidation_end segment segments = scan_end segment.change_type true 0 1 (segment ∷ segments)

abbrev pub texts : List WordChangeSegment → List String
texts [] = []
texts (x ∷ xs) = x.text ∷ texts xs

abbrev pub total_len : List WordChangeSegment → ℕ
total_len [] = 0
total_len (x ∷ xs) = len x.text + total_len xs

abbrev pub take : ℕ → List WordChangeSegment → List WordChangeSegment
take zero xs = []
take (suc n) [] = []
take (suc n) (x ∷ xs) = x ∷ take n xs

unfoldable pub merge_segments : WordChangeSegment → List WordChangeSegment → WordChangeSegment
merge_segments segment segments_to_merge = record {
  text = join (texts segments_to_merge);
  change_type = segment.change_type;
  start_offset = segment.start_offset;
  end_offset = segment.start_offset + total_len segments_to_merge;
}

abbrev pub is_changed : WordChangeType → Bool
is_changed insert = true
is_changed delete = true
is_changed equal = false

-- `skip` is how many of the segments ahead were already consolidated
unfoldable pub consolidate_from : (skip : ℕ) → List WordChangeSegment → List WordChangeSegment
consolidate_from skip [] = []
consolidate_from (suc skip) (segment ∷ segments) = consolidate_from skip segments
consolidate_from zero (segment ∷ segments) =
    let end = find_consolidation_end segment segments in
    let merged =
      merge_segments segment (take end (segment ∷ segments))
      ∷ consolidate_from (end - 1) segments in
    let kept = segment ∷ consolidate_from 0 segments in
    if is_changed segment.change_type then merged else kept

-- the two branches of a segment that is not skipped
pub consolidate_changed :
    (x : WordChangeSegment) (xs : List WordChangeSegment)
    → is_changed x.change_type ≡ true
    → consolidate_from 0 (x ∷ xs)
      ≡ merge_segments x (take (find_consolidation_end x xs) (x ∷ xs))
        ∷ consolidate_from (find_consolidation_end x xs - 1) xs
unfolding consolidate_from
consolidate_changed x xs h = rw h

pub consolidate_kept :
    (x : WordChangeSegment) (xs : List WordChangeSegment)
    → is_changed x.change_type ≡ false
    → consolidate_from 0 (x ∷ xs) ≡ x ∷ consolidate_from 0 xs
unfolding consolidate_from
consolidate_kept x xs h = rw h

pub consolidate_skipped :
    (n : ℕ) (x : WordChangeSegment) (xs : List WordChangeSegment)
    → consolidate_from (suc n) (x ∷ xs) ≡ consolidate_from n xs
unfolding consolidate_from
consolidate_skipped n x xs = refl

unfoldable pub consolidate_consecutive_changes : List WordChangeSegment → List WordChangeSegment
unfolding consolidate_from find_consolidation_end merge_segments
consolidate_consecutive_changes changes = consolidate_from 0 changes

pub consolidate_consecutive_changes_lem :
    (l : List WordChangeSegment) → consolidate_consecutive_changes l ≡ consolidate_from 0 l
unfolding consolidate_consecutive_changes
consolidate_consecutive_changes_lem l = refl

module _ (diff : TextDiff) where
  unfoldable pub create_word_diff_segments : List String → List String → StructuredWordDiffResult
  create_word_diff_segments old_words new_words =
      let changes = diff.from_slices old_words new_words in
      record {
        old_changes = consolidate_consecutive_changes (old_segments 0 changes);
        new_changes = consolidate_consecutive_changes (new_segments 0 changes);
      }

  unfoldable pub highlight_word_diff_structured : String → String → ℕ → StructuredWordDiffResult
  highlight_word_diff_structured old_line new_line max_line_length =
      if ltb max_line_length (len old_line) || ltb max_line_length (len new_line)
      then record {
        old_changes = create_equal_segment old_line 0 ∷ [];
        new_changes = create_equal_segment new_line 0 ∷ [];
      }
      else create_word_diff_segments (split_into_words old_line) (split_into_words new_line)

  abbrev pub is_long : String → String → ℕ → Bool
  is_long old_line new_line max_line_length =
      ltb max_line_length (len old_line) || ltb max_line_length (len new_line)

  pub highlight_long :
      (old_line new_line : String) (max_line_length : ℕ)
      → is_long old_line new_line max_line_length ≡ true
      → highlight_word_diff_structured old_line new_line max_line_length ≡ record {
        old_changes = create_equal_segment old_line 0 ∷ [];
        new_changes = create_equal_segment new_line 0 ∷ [];
      }
  unfolding highlight_word_diff_structured
  highlight_long old_line new_line max_line_length h = rw h

  pub highlight_short :
      (old_line new_line : String) (max_line_length : ℕ)
      → is_long old_line new_line max_line_length ≡ false
      → highlight_word_diff_structured old_line new_line max_line_length
        ≡ create_word_diff_segments (split_into_words old_line) (split_into_words new_line)
  unfolding highlight_word_diff_structured
  highlight_short old_line new_line max_line_length h = rw h
