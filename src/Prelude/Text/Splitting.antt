-- ===== src/Prelude/Text/Splitting.antt =====
-- Texts that are joined by dots are split again.
use Prim.Native.Char.{Char, code}
use Prim.Native.String.{String, ◌++◌ as ◌<>◌}
use mathlib.Core.Path.{◌≡◌, refl}
use mathlib.Core.Bool.{Bool, true, false, ◌&&◌, not}
use mathlib.Core.Logic.{inl, inr}
use mathlib.Core.List.{List, [], ◌∷◌, ◌++◌}
use text.Mathlib.TextLemmas.{nil-append, cons-append, append-nil}
use streamerson.Prelude.Tests.{nat_eq, Bool-cases}
use streamerson.Prelude.Text.{split_dots, with_character, template}

-- A text with no dot in it.
unfoldable pub dotless : String → Bool
dotless String.[] = true
dotless (String.◌∷◌ c s) = not (nat_eq (code c) 46) && dotless s

dotless-tail :
    (c : Char) (s : String)
    → dotless (String.◌∷◌ c s) ≡ true
    → (nat_eq (code c) 46 ≡ false) × (dotless s ≡ true)
unfolding dotless
dotless-tail c s h = elim (Bool-cases (nat_eq (code c) 46)) [
  | inl dot ↦ absurd (cc (rw dot at h))
  | inr other ↦ (other, rw other at h)
]

pub split_dots-dotless : (s : String) → dotless s ≡ true → split_dots s ≡ s ∷ []
unfolding split_dots with_character
split_dots-dotless String.[] h = refl
split_dots-dotless (String.◌∷◌ c s) h =
    let (other, rest) = dotless-tail c s h in rw other (rw (split_dots-dotless s rest))

with_character-twice :
    (c d : Char) (l more : List String)
    → with_character c (with_character d l ++ more) ≡ with_character c (with_character d l) ++ more
unfolding with_character
with_character-twice c d [] more = refl
with_character-twice c d (x ∷ l) more = refl

with_character-append :
    (c : Char) (s : String) (more : List String)
    → with_character c (split_dots s ++ more) ≡ with_character c (split_dots s) ++ more
unfolding split_dots with_character
with_character-append c String.[] more = refl
with_character-append c (String.◌∷◌ d s) more = elim (Bool-cases (nat_eq (code d) 46)) [
  | inl dot ↦ rw dot refl
  | inr other ↦ rw other (with_character-twice c d (split_dots s) more)
]

-- A path and a dot and a key are split into the path's keys and that key.
pub split_dots-append :
    (s k : String) → dotless k ≡ true → split_dots (s <> ("." <> k)) ≡ split_dots s ++ k ∷ []
unfolding split_dots
split_dots-append String.[] k h =
    rw (nil-append, cons-append) (rw nil-append (rw (split_dots-dotless k h)))
split_dots-append (String.◌∷◌ c s) k h = rw cons-append (elim (Bool-cases (nat_eq (code c) 46)) [
  | inl dot ↦ rw dot (rw (split_dots-append s k h))
  | inr other ↦ rw other (rw (split_dots-append s k h) (with_character-append c s (k ∷ [])))
])

-- The same, for the text of a template.
pub split_dots-template :
    (s k : String)
    → dotless k ≡ true
    → split_dots (template (s ∷ "." ∷ k ∷ [])) ≡ split_dots s ++ k ∷ []
unfolding template
split_dots-template s k h = rw append-nil (split_dots-append s k h)
