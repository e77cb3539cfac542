-- ===== src/WordDiff/Consolidation/Offsets.antt =====
-- The offsets of the segments of a line: one begins where the one before it ends.
use Prim.Native.String.{len}
use archipelago_xl.Base.{
  ℕ, zero, suc, ◌+◌, ◌-◌, ◌≤◌, ◌≡◌, refl, sym, ap, ◌∙◌, subst, String, List, [], ◌∷◌, arith,
  Bool-cases, inl, inr,
}
use text.Mathlib.TextPositions.{len-append}
use archipelago_xl.WordDiff.Words.{join, split_into_words}
use archipelago_xl.WordDiff.Segments.{
  WordChangeSegment, Change, TextDiff, create_equal_segment, old_segments, new_segments,
}
use archipelago_xl.WordDiff.Consolidation.{
  texts, take, total_len, is_changed, merge_segments, find_consolidation_end, consolidate_from,
  consolidate_changed, consolidate_kept, consolidate_skipped, consolidate_consecutive_changes,
  consolidate_consecutive_changes_lem, create_word_diff_segments, highlight_word_diff_structured,
  is_long, highlight_long, highlight_short, StructuredWordDiffResult,
}
use archipelago_xl.WordDiff.Consolidation.Ends.{find_consolidation_end-ge}
use archipelago_xl.WordDiff.Consolidation.Texts.{suc_of_pos}

-- the segments begin at `offset`, and each has the length of its text
abbrev pub IsTiled : ℕ → List WordChangeSegment → Type 0
IsTiled offset [] = Unit
IsTiled offset (x ∷ xs) =
    (x.start_offset ≡ offset)
    × (x.end_offset ≡ offset + len x.text)
    × IsTiled (offset + len x.text) xs

old_segments-IsTiled : (offset : ℕ) (cs : List Change) → IsTiled offset (old_segments offset cs)
unfolding old_segments
old_segments-IsTiled offset [] = tt
old_segments-IsTiled offset (c ∷ cs) =
    ground (arith, old_segments-IsTiled offset cs, old_segments-IsTiled (offset + len c.value) cs)

new_segments-IsTiled : (offset : ℕ) (cs : List Change) → IsTiled offset (new_segments offset cs)
unfolding new_segments
new_segments-IsTiled offset [] = tt
new_segments-IsTiled offset (c ∷ cs) =
    ground (arith, new_segments-IsTiled offset cs, new_segments-IsTiled (offset + len c.value) cs)

total_len-texts : (l : List WordChangeSegment) → len (join (texts l)) ≡ total_len l
total_len-texts [] = refl
total_len-texts (x ∷ xs) =
    len-append x.text (join (texts xs)) ∙ ap (λ n. len x.text + n) (total_len-texts xs)

abbrev skipped_len : ℕ → List WordChangeSegment → ℕ
skipped_len n l = total_len (take n l)

merged-IsTiled :
    (offset end : ℕ) (x : WordChangeSegment) (xs rest : List WordChangeSegment)
    → x.start_offset ≡ offset
    → 1 ≤ end
    → IsTiled (offset + len x.text + skipped_len (end - 1) xs) rest
    → IsTiled offset (merge_segments x (take end (x ∷ xs)) ∷ rest)
unfolding merge_segments
merged-IsTiled offset end x xs rest starts some_end h = (
  starts,
  ap (λ n. n + skipped_len end (x ∷ xs)) starts
      ∙ ap (λ n. offset + n) (sym (total_len-texts (take end (x ∷ xs)))),
  subst (λ n. IsTiled n rest) (covered end some_end) h,
)
  where
    covered :
        (end : ℕ)
        → 1 ≤ end
        → offset + len x.text + skipped_len (end - 1) xs
          ≡ offset + len (join (texts (take end (x ∷ xs))))
    covered end some_end =
        plus
        ∙ ap (λ n. offset + skipped_len n (x ∷ xs)) (sym (suc_of_pos end some_end))
        ∙ ap (λ n. offset + n) (sym (total_len-texts (take end (x ∷ xs))))
      where
        plus :
            offset + len x.text + skipped_len (end - 1) xs
            ≡ offset + skipped_len (suc (end - 1)) (x ∷ xs)
        plus = omega arith

from_zero : (offset : ℕ) (l : List WordChangeSegment) → IsTiled offset l → IsTiled (offset + 0) l
from_zero offset l h = subst (λ n. IsTiled n l) (omega arith) h

consolidate_from-IsTiled :
    (skip offset : ℕ) (l : List WordChangeSegment)
    → IsTiled offset l
    → IsTiled (offset + skipped_len skip l) (consolidate_from skip l)
consolidate_from-IsTiled zero offset [] h = unfold consolidate_from in tt
consolidate_from-IsTiled (suc skip) offset [] h = unfold consolidate_from in tt
consolidate_from-IsTiled (suc skip) offset (x ∷ xs) (starts, ends, h) =
    subst (λ n. IsTiled n (consolidate_from (suc skip) (x ∷ xs))) (omega arith)
      (subst (IsTiled (offset + len x.text + skipped_len skip xs))
        (sym (consolidate_skipped skip x xs))
        (consolidate_from-IsTiled skip (offset + len x.text) xs h))
consolidate_from-IsTiled zero offset (x ∷ xs) (starts, ends, h) =
    elim (Bool-cases (is_changed x.change_type)) [
      | inl changed ↦ from_zero offset (consolidate_from 0 (x ∷ xs)) (
          subst (IsTiled offset) (sym (consolidate_changed x xs changed)) (
            merged-IsTiled offset (find_consolidation_end x xs) x xs
              (consolidate_from (find_consolidation_end x xs - 1) xs) starts
              (find_consolidation_end-ge x xs)
              (consolidate_from-IsTiled (find_consolidation_end x xs - 1) (offset + len x.text) xs
                h)))
      | inr kept ↦ from_zero offset (consolidate_from 0 (x ∷ xs)) (
          subst (IsTiled offset) (sym (consolidate_kept x xs kept)) (
            starts,
            ends,
            subst (λ n. IsTiled n (consolidate_from 0 xs)) (omega arith)
                (consolidate_from-IsTiled 0 (offset + len x.text) xs h),
          ))
    ]

consolidate-IsTiled :
    (l : List WordChangeSegment) → IsTiled 0 l → IsTiled 0 (consolidate_consecutive_changes l)
consolidate-IsTiled l h =
    subst (IsTiled 0) (sym (consolidate_consecutive_changes_lem l))
      (consolidate_from-IsTiled 0 0 l h)

equal-IsTiled : (line : String) → IsTiled 0 (create_equal_segment line 0 ∷ [])
unfolding create_equal_segment
equal-IsTiled line = (refl, refl, tt)

module _ (diff : TextDiff) where
  abbrev AreTiled : StructuredWordDiffResult → Type 0
  AreTiled r = IsTiled 0 r.old_changes × IsTiled 0 r.new_changes

  create_word_diff_segments-AreTiled :
      (old_words new_words : List String)
      → AreTiled (create_word_diff_segments diff old_words new_words)
  unfolding create_word_diff_segments
  create_word_diff_segments-AreTiled old_words new_words =
      let changes = diff.from_slices old_words new_words in
      (
        consolidate-IsTiled (old_segments 0 changes) (old_segments-IsTiled 0 changes),
        consolidate-IsTiled (new_segments 0 changes) (new_segments-IsTiled 0 changes),
      )

  -- On each side the first segment begins at 0, each other segment begins where the one before it
  -- ends, and every segment is as long, in bytes, as its text.
  pub highlight-IsTiled :
      (old_line new_line : String) (max_line_length : ℕ)
      → IsTiled 0
          (highlight_word_diff_structured diff old_line new_line max_line_length).old_changes
        × IsTiled 0
            (highlight_word_diff_structured diff old_line new_line max_line_length).new_changes
  highlight-IsTiled old_line new_line max_line_length =
      elim (Bool-cases (is_long diff old_line new_line max_line_length)) [
        | inl long ↦
            subst AreTiled (sym (highlight_long diff old_line new_line max_line_length long))
              (equal-IsTiled old_line, equal-IsTiled new_line)
        | inr short ↦
            subst AreTiled (sym (highlight_short diff old_line new_line max_line_length short)) (
              create_word_diff_segments-AreTiled (split_into_words old_line)
                (split_into_words new_line))
      ]
