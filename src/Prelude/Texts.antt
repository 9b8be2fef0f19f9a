-- ===== src/Prelude/Texts.antt =====
-- Texts: the concatenation of the native strings, under a name beside the lists' `++`.
use Prim.Native.String.{String, ◌++◌}
use mathlib.Core.Path.{◌≡◌}
use mathlib.Core.Bool.{true}
use mathlib.Core.Logic.{◌≢◌, inl, inr}
use text.Mathlib.Text.{◌==◌}
use text.Mathlib.TextEquality.{eq_iff}
use text.Mathlib.TextLemmas.{append-ne-nil_of_right_ne-nil, append-eq-nil_iff}
use jetstack_secure.Prelude.Base.{is_set, Bool-cases}

abbrev pub concat : String → String → String
concat s t = s ++ t

pub is_set_of_ne : (s : String) → s ≢ "" → is_set s ≡ true
is_set_of_ne s h = elim (Bool-cases (s == "")) [
  | inl e ↦ absurd (h ((eq_iff s "").0 e))
  | inr e ↦ rw e
]

-- A text that ends in one which is not empty is not empty.
pub is_set-concat : (s t : String) → t ≢ "" → is_set (concat s t) ≡ true
is_set-concat s t h = is_set_of_ne (s ++ t) (append-ne-nil_of_right_ne-nil s h)

-- A text that starts with one which is not empty is not empty.
pub concat-ne_empty : (s t : String) → s ≢ "" → concat s t ≢ ""
concat-ne_empty s t h e = h ((append-eq-nil_iff {p = s} {q = t}).0 e).0
