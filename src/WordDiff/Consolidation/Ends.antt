-- ===== src/WordDiff/Consolidation/Ends.antt =====
-- Where a consolidated range ends.
use archipelago_xl.Base.{
  ℕ, zero, suc, ◌+◌, ◌-◌, ◌≤◌, ◌≡◌, refl, Bool, true, false, List, [], ◌∷◌, ◌++◌, arith, length,
  length-append, if◌then◌else◌, ◌∙◌, ap,
}
use archipelago_xl.WordDiff.Segments.{WordChangeType, WordChangeSegment, insert, delete, equal}
use archipelago_xl.WordDiff.Consolidation.{
  type_eq, next_is, scan_end, find_consolidation_end, take, is_changed, merge_segments,
  consolidate_changed, consolidate_from, consolidate_consecutive_changes,
  consolidate_consecutive_changes_lem,
}

-- one more than the position of the last segment of a type
abbrev pub last_end : WordChangeType → (offset end : ℕ) → List WordChangeSegment → ℕ
last_end target offset end [] = end
last_end target offset end (x ∷ xs) =
    let other = last_end target (offset + 1) end xs in
    let here = last_end target (offset + 1) (offset + 1) xs in
    if type_eq x.change_type target then here else other

last_end-next :
    (target : WordChangeType) (offset end end' : ℕ) (l : List WordChangeSegment)
    → next_is target l ≡ true
    → last_end target offset end l ≡ last_end target offset end' l
last_end-next target offset end end' [] h = cc
last_end-next target offset end end' (x ∷ xs) h = rw h

-- The test of the segments between makes no difference.
scan_end_lem :
    (target : WordChangeType) (go : Bool) (offset end : ℕ) (l : List WordChangeSegment)
    → scan_end target go offset end l ≡ last_end target offset end l
unfolding scan_end
scan_end_lem target go offset end [] = refl
scan_end_lem target go offset end (x ∷ xs) = ground (
  arith,
  scan_end_lem target go (offset + 1) (offset + 1) xs,
  scan_end_lem target false (offset + 1) end xs,
  last_end-next target (offset + 1) end (offset + 1) xs,
)

pub last_end-ge :
    (target : WordChangeType) (offset end : ℕ) (l : List WordChangeSegment)
    → 1 ≤ end
    → 1 ≤ last_end target offset end l
last_end-ge target offset end [] h = h
last_end-ge target offset end (x ∷ xs) h = ground (
  arith,
  last_end-ge target (offset + 1) end xs h,
  last_end-ge target (offset + 1) (offset + 1) xs,
)

pub find_consolidation_end-ge :
    (x : WordChangeSegment) (xs : List WordChangeSegment) → 1 ≤ find_consolidation_end x xs
unfolding find_consolidation_end
find_consolidation_end-ge x xs =
    rw (scan_end_lem x.change_type true 0 1 (x ∷ xs))
      (last_end-ge x.change_type 0 1 (x ∷ xs) (omega arith))

last_end-concat :
    (target : WordChangeType) (offset end : ℕ) (l : List WordChangeSegment) (y : WordChangeSegment)
    → type_eq y.change_type target ≡ true
    → last_end target offset end (l ++ y ∷ []) ≡ offset + length l + 1
last_end-concat target offset end [] y h = rw h (omega arith)
last_end-concat target offset end (x ∷ xs) y h = ground (
  arith,
  last_end-concat target (offset + 1) end xs y h,
  last_end-concat target (offset + 1) (offset + 1) xs y h,
)

type_eq_refl : (t : WordChangeType) → type_eq t t ≡ true
type_eq_refl insert = refl
type_eq_refl delete = refl
type_eq_refl equal = refl

take_all : (n : ℕ) (l : List WordChangeSegment) → length l ≤ n → take n l ≡ l
take_all zero [] h = refl
take_all zero (x ∷ xs) h = absurd (omega arith)
take_all (suc n) [] h = refl
take_all (suc n) (x ∷ xs) h = ap (◌∷◌ x) (take_all n xs (omega arith))

consolidate_from-past :
    (n : ℕ) (l : List WordChangeSegment) → length l ≤ n → consolidate_from n l ≡ []
unfolding consolidate_from
consolidate_from-past zero [] h = refl
consolidate_from-past zero (x ∷ xs) h = absurd (omega arith)
consolidate_from-past (suc n) [] h = refl
consolidate_from-past (suc n) (x ∷ xs) h = consolidate_from-past n xs (omega arith)

spanning_end :
    (x y : WordChangeSegment) (between : List WordChangeSegment)
    → y.change_type ≡ x.change_type
    → find_consolidation_end x (between ++ y ∷ []) ≡ length between + 2
unfolding find_consolidation_end
spanning_end x y between same =
    scan_end_lem x.change_type true 0 1 (x ∷ (between ++ y ∷ []))
    ∙ last_end-concat x.change_type 0 1 (x ∷ between) y (rw same (type_eq_refl x.change_type))
    ∙ omega arith

-- A list of segments that begins with a changed one and ends with one of the same type becomes one
-- segment of that type, whatever stands between them: equal text that is not white space too.
pub consolidate_spans :
    (x y : WordChangeSegment) (between : List WordChangeSegment)
    → is_changed x.change_type ≡ true
    → y.change_type ≡ x.change_type
    → consolidate_consecutive_changes (x ∷ (between ++ y ∷ []))
      ≡ merge_segments x (x ∷ (between ++ y ∷ [])) ∷ []
consolidate_spans x y between changed same =
    consolidate_consecutive_changes_lem _
    ∙ consolidate_changed x (between ++ y ∷ []) changed
    ∙ rw (spanning_end x y between same) (
        rw
          (
            take_all (length between + 2) (x ∷ (between ++ y ∷ []))
                (omega (arith, length-append {0} between (y ∷ []))),
            consolidate_from-past (length between + 2 - 1) (between ++ y ∷ [])
                (omega (arith, length-append {0} between (y ∷ []))),
          )
          refl)
