-- ===== src/WordDiff/Consolidation/Texts.antt =====
-- The segments of a line, put together, are the line.
use Prim.Native.String
use Prim.Native.String.{len}
use text.Mathlib.TextLemmas.{append_assoc, nil-append, append-nil}
use archipelago_xl.Base.{
  ℕ, zero, suc, ◌+◌, ◌-◌, ◌≤◌, ◌≡◌, refl, String, List, [], ◌∷◌, arith, Bool-cases, inl, inr, sym,
  ◌∙◌, ap,
}
use archipelago_xl.WordDiff.Words.{join, split_into_words, join-split_into_words}
use archipelago_xl.WordDiff.Segments.{
  WordChangeSegment, Change, TextDiff, old_values, new_values, old_segments, new_segments,
  create_equal_segment,
}
use archipelago_xl.WordDiff.Consolidation.{
  texts, take, is_changed, merge_segments, find_consolidation_end, consolidate_from,
  consolidate_changed, consolidate_kept, consolidate_skipped, consolidate_consecutive_changes,
  consolidate_consecutive_changes_lem, create_word_diff_segments, highlight_word_diff_structured,
  is_long, highlight_long, highlight_short,
}
use archipelago_xl.WordDiff.Consolidation.Ends.{find_consolidation_end-ge}

abbrev pub drop : ℕ → List WordChangeSegment → List WordChangeSegment
drop zero xs = xs
drop (suc n) [] = []
drop (suc n) (x ∷ xs) = drop n xs

abbrev pub text_of : List WordChangeSegment → String
text_of l = join (texts l)

text_of-take-drop :
    (n : ℕ) (l : List WordChangeSegment)
    → String.◌++◌ (text_of (take n l)) (text_of (drop n l)) ≡ text_of l
text_of-take-drop zero l = nil-append _
text_of-take-drop (suc n) [] = nil-append _
text_of-take-drop (suc n) (x ∷ xs) =
    append_assoc x.text _ _ ∙ ap (String.◌++◌ x.text) (text_of-take-drop n xs)

pub suc_of_pos : (n : ℕ) → 1 ≤ n → n ≡ suc (n - 1)
suc_of_pos n h = omega arith

pub drop-pos :
    (n : ℕ) (x : WordChangeSegment) (xs : List WordChangeSegment)
    → 1 ≤ n
    → drop n (x ∷ xs) ≡ drop (n - 1) xs
drop-pos n x xs h = ap (λ k. drop k (x ∷ xs)) (suc_of_pos n h)

text_of-merged :
    (x : WordChangeSegment) (xs rest : List WordChangeSegment)
    → text_of rest ≡ text_of (drop (find_consolidation_end x xs - 1) xs)
    → text_of (merge_segments x (take (find_consolidation_end x xs) (x ∷ xs)) ∷ rest)
      ≡ text_of (x ∷ xs)
unfolding merge_segments
text_of-merged x xs rest h =
    ap (String.◌++◌ (text_of (take (find_consolidation_end x xs) (x ∷ xs)))) (
      h
      ∙ ap text_of
          (sym (drop-pos (find_consolidation_end x xs) x xs (find_consolidation_end-ge x xs))))
    ∙ text_of-take-drop (find_consolidation_end x xs) (x ∷ xs)

text_of-consolidate_from :
    (skip : ℕ) (l : List WordChangeSegment)
    → text_of (consolidate_from skip l) ≡ text_of (drop skip l)
text_of-consolidate_from zero [] = unfold consolidate_from in refl
text_of-consolidate_from (suc skip) [] = unfold consolidate_from in refl
text_of-consolidate_from (suc skip) (x ∷ xs) =
    ap text_of (consolidate_skipped skip x xs) ∙ text_of-consolidate_from skip xs
text_of-consolidate_from zero (x ∷ xs) = elim (Bool-cases (is_changed x.change_type)) [
  | inl changed ↦
      ap text_of (consolidate_changed x xs changed)
      ∙ text_of-merged x xs (consolidate_from (find_consolidation_end x xs - 1) xs)
          (text_of-consolidate_from (find_consolidation_end x xs - 1) xs)
  | inr kept ↦
      ap text_of (consolidate_kept x xs kept)
      ∙ ap (String.◌++◌ x.text) (text_of-consolidate_from 0 xs)
]

text_of-consolidate :
    (l : List WordChangeSegment) → text_of (consolidate_consecutive_changes l) ≡ text_of l
text_of-consolidate l =
    ap text_of (consolidate_consecutive_changes_lem l) ∙ text_of-consolidate_from 0 l

text_of-old_segments :
    (offset : ℕ) (cs : List Change) → text_of (old_segments offset cs) ≡ join (old_values cs)
unfolding old_segments
text_of-old_segments offset [] = refl
text_of-old_segments offset (c ∷ cs) =
    ground (arith, text_of-old_segments offset cs, text_of-old_segments (offset + len c.value) cs)

text_of-new_segments :
    (offset : ℕ) (cs : List Change) → text_of (new_segments offset cs) ≡ join (new_values cs)
unfolding new_segments
text_of-new_segments offset [] = refl
text_of-new_segments offset (c ∷ cs) =
    ground (arith, text_of-new_segments offset cs, text_of-new_segments (offset + len c.value) cs)

text_of-equal : (line : String) → text_of (create_equal_segment line 0 ∷ []) ≡ line
unfolding create_equal_segment
text_of-equal line = append-nil line

module _ (diff : TextDiff) where
  sides_spell_words :
      (old_words new_words : List String)
      → (text_of (create_word_diff_segments diff old_words new_words).old_changes ≡ join old_words)
        × (text_of (create_word_diff_segments diff old_words new_words).new_changes
            ≡ join new_words)
  unfolding create_word_diff_segments
  sides_spell_words old_words new_words = (
    text_of-consolidate _
        ∙ text_of-old_segments 0 (diff.from_slices old_words new_words)
        ∙ ap join (diff.old_values-from_slices old_words new_words),
    text_of-consolidate _
        ∙ text_of-new_segments 0 (diff.from_slices old_words new_words)
        ∙ ap join (diff.new_values-from_slices old_words new_words),
  )

  -- The texts of the segments of each side, put together in their order, are the line of that
  -- side, whatever the limit on the length: nothing of a line is lost or repeated, however its
  -- words are diffed and merged.
  pub segments_spell_lines :
      (old_line new_line : String) (max_line_length : ℕ)
      → (text_of (highlight_word_diff_structured diff old_line new_line max_line_length).old_changes
          ≡ old_line)
        × (text_of
              (highlight_word_diff_structured diff old_line new_line max_line_length).new_changes
            ≡ new_line)
  segments_spell_lines old_line new_line max_line_length =
      elim (Bool-cases (is_long diff old_line new_line max_line_length)) [
        | inl long ↦ (
          ap (λ r. text_of r.old_changes)
                (highlight_long diff old_line new_line max_line_length long)
              ∙ text_of-equal old_line,
          ap (λ r. text_of r.new_changes)
                (highlight_long diff old_line new_line max_line_length long)
              ∙ text_of-equal new_line,
        )
        | inr short ↦ (
          ap (λ r. text_of r.old_changes)
                (highlight_short diff old_line new_line max_line_length short)
              ∙ (sides_spell_words (split_into_words old_line) (split_into_words new_line)).0
              ∙ join-split_into_words old_line,
          ap (λ r. text_of r.new_changes)
                (highlight_short diff old_line new_line max_line_length short)
              ∙ (sides_spell_words (split_into_words old_line) (split_into_words new_line)).1
              ∙ join-split_into_words new_line,
        )
      ]
