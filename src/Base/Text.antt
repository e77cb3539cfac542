-- ===== src/Base/Text.antt =====
-- Texts that begin alike.
use Prim.Native.Char.{Char, code}
use Prim.Native.String.{String, [], ◌∷◌, ◌++◌}
use mathlib.Core.Path.{◌≡◌, sym, ◌∙◌, ap}
use mathlib.Core.Logic.{◌≢◌}
use text.Mathlib.TextLemmas.{
  cons-append, append-nil, append_assoc, append_cancel_left, head-eq_of_cons-eq, tail-eq_of_cons-eq,
}

pub append_tail : (c : Char) (s t u v : String) → (c ∷ s) ++ u ≡ (c ∷ t) ++ v → s ++ u ≡ t ++ v
append_tail c s t u v e = tail-eq_of_cons-eq (sym (cons-append c s u) ∙ e ∙ cons-append c t v)

pub append_clash : (c d : Char) (s t u v : String) → code c ≢ code d → (c ∷ s) ++ u ≢ (d ∷ t) ++ v
append_clash c d s t u v h e =
    h (ap code (head-eq_of_cons-eq (sym (cons-append c s u) ∙ e ∙ cons-append d t v)))

pub cancel_two :
    (a n s t u v : String) → (a ++ (n ++ s)) ++ u ≡ (a ++ (n ++ t)) ++ v → s ++ u ≡ t ++ v
cancel_two a n s t u v e =
    append_cancel_left n _ _
      (append_cancel_left a _ _ (sym (regroup a n s u) ∙ e ∙ regroup a n t v))
  where
    regroup : (a n s u : String) → (a ++ (n ++ s)) ++ u ≡ a ++ (n ++ (s ++ u))
    regroup a n s u = simp append_assoc

pub cancel_two_end : (a n s t v : String) → a ++ (n ++ s) ≡ (a ++ (n ++ t)) ++ v → s ++ [] ≡ t ++ v
cancel_two_end a n s t v e = cancel_two a n s t [] v (append-nil _ ∙ e)
