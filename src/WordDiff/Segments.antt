-- ===== src/WordDiff/Segments.antt =====
-- apdiff-viewer/src/diff/word_diff.rs: segments, and the diff of two lists of words. The diff
-- itself is the `similar` crate's: a function of the two lists whose changes, read in order,
-- spell out the old words and the new ones.
use Prim.Native.String.{len}
use archipelago_xl.Base.{ℕ, ◌+◌, String, ◌≡◌, List, [], ◌∷◌}

pub data WordChangeType : Type 0 where
  insert delete equal : WordChangeType

pub record WordChangeSegment : Type 0 where
  pub text : String
  pub change_type : WordChangeType
  pub start_offset : ℕ
  pub end_offset : ℕ

-- `ChangeTag` has the same three cases; `change_type` is the map between them.
pub record Change : Type 0 where
  pub tag : WordChangeType
  pub value : String

abbrev pub old_values : List Change → List String
old_values [] = []
old_values (c ∷ cs) = elim c.tag [
  | insert ↦ old_values cs
  | delete ↦ c.value ∷ old_values cs
  | equal ↦ c.value ∷ old_values cs
]

abbrev pub new_values : List Change → List String
new_values [] = []
new_values (c ∷ cs) = elim c.tag [
  | insert ↦ c.value ∷ new_values cs
  | delete ↦ new_values cs
  | equal ↦ c.value ∷ new_values cs
]

pub record TextDiff : Type 0 where
  pub from_slices : List String → List String → List Change
  pub old_values-from_slices : (old new : List String) → old_values (from_slices old new) ≡ old
  pub new_values-from_slices : (old new : List String) → new_values (from_slices old new) ≡ new

unfoldable pub create_segment : String → WordChangeType → ℕ → WordChangeSegment
create_segment content change_type start_offset = record {
  text = content;
  change_type = change_type;
  start_offset = start_offset;
  end_offset = start_offset + len content;
}

unfoldable pub create_equal_segment : String → ℕ → WordChangeSegment
unfolding create_segment
create_equal_segment content start_offset = create_segment content equal start_offset

-- The scan of `create_word_diff_segments`, for the segments of one side: the old line has the
-- equal and deleted words, the new one the equal and inserted ones. Each side's offset moves only
-- with its own segments.
unfoldable pub old_segments : ℕ → List Change → List WordChangeSegment
unfolding create_segment
old_segments offset [] = []
old_segments offset (c ∷ cs) = elim c.tag [
  | insert ↦ old_segments offset cs
  | delete ↦ create_segment c.value delete offset ∷ old_segments (offset + len c.value) cs
  | equal ↦ create_segment c.value equal offset ∷ old_segments (offset + len c.value) cs
]

unfoldable pub new_segments : ℕ → List Change → List WordChangeSegment
unfolding create_segment
new_segments offset [] = []
new_segments offset (c ∷ cs) = elim c.tag [
  | insert ↦ create_segment c.value insert offset ∷ new_segments (offset + len c.value) cs
  | delete ↦ new_segments offset cs
  | equal ↦ create_segment c.value equal offset ∷ new_segments (offset + len c.value) cs
]
