-- ===== src/WordDiff/Tests.antt =====
-- The theorems on the diff of two lines, with the diff that deletes and inserts every word.
use archipelago_xl.Base.{◌∙◌, ◌≡◌, refl, ap, String, List, [], ◌∷◌}
use archipelago_xl.WordDiff.Segments.{
  WordChangeSegment, Change, TextDiff, insert, delete, equal, old_values, new_values,
}
use archipelago_xl.WordDiff.Consolidation.{
  consolidate_consecutive_changes, merge_segments, highlight_word_diff_structured,
}
use archipelago_xl.WordDiff.Consolidation.Ends.{consolidate_spans}
use archipelago_xl.WordDiff.Consolidation.Offsets.{IsTiled, highlight-IsTiled}
use archipelago_xl.WordDiff.Consolidation.Texts.{text_of, segments_spell_lines}

abbrev deleted : List String → List Change → List Change
deleted [] cs = cs
deleted (w ∷ ws) cs = record { tag = delete; value = w } ∷ deleted ws cs

abbrev inserted : List String → List Change
inserted [] = []
inserted (w ∷ ws) = record { tag = insert; value = w } ∷ inserted ws

inserted-old : (new : List String) → old_values (inserted new) ≡ []
inserted-old [] = refl
inserted-old (w ∷ ws) = inserted-old ws

inserted-new : (new : List String) → new_values (inserted new) ≡ new
inserted-new [] = refl
inserted-new (w ∷ ws) = ap (◌∷◌ w) (inserted-new ws)

deleted-old :
    (old : List String) (cs : List Change) → old_values cs ≡ [] → old_values (deleted old cs) ≡ old
deleted-old [] cs h = h
deleted-old (w ∷ ws) cs h = ap (◌∷◌ w) (deleted-old ws cs h)

deleted-new : (old : List String) (cs : List Change) → new_values (deleted old cs) ≡ new_values cs
deleted-new [] cs = refl
deleted-new (w ∷ ws) cs = deleted-new ws cs

whole_lines : TextDiff
whole_lines = record {
  from_slices = λ old new. deleted old (inserted new);
  old_values-from_slices = λ old new. deleted-old old (inserted new) (inserted-old new);
  new_values-from_slices = λ old new. deleted-new old (inserted new) ∙ inserted-new new;
}

segments_spell_lines_example :
    (text_of (highlight_word_diff_structured whole_lines "a b" "a c" 100).old_changes ≡ "a b")
    × (text_of (highlight_word_diff_structured whole_lines "a b" "a c" 100).new_changes ≡ "a c")
segments_spell_lines_example = segments_spell_lines whole_lines "a b" "a c" 100

abbrev foo : WordChangeSegment
foo = record { text = "foo"; change_type = delete; start_offset = 0; end_offset = 3 }

kept : WordChangeSegment
kept = record { text = " kept "; change_type = equal; start_offset = 3; end_offset = 9 }

abbrev bar : WordChangeSegment
bar = record { text = "bar"; change_type = delete; start_offset = 9; end_offset = 12 }

consolidate_spans_example :
    consolidate_consecutive_changes (foo ∷ kept ∷ bar ∷ [])
    ≡ merge_segments foo (foo ∷ kept ∷ bar ∷ []) ∷ []
consolidate_spans_example = consolidate_spans foo bar (kept ∷ []) refl refl

highlight-IsTiled_example :
    IsTiled 0 (highlight_word_diff_structured whole_lines "a b" "a c" 100).old_changes
    × IsTiled 0 (highlight_word_diff_structured whole_lines "a b" "a c" 100).new_changes
highlight-IsTiled_example = highlight-IsTiled whole_lines "a b" "a c" 100
