-- ===== src/Emitter/Changes.antt =====
-- Which updates are reported as changes.
use streamerson.Prelude.{
  String, ◌≡◌, ◌↔◌, refl, Bool, true, false, ◌&&◌, List, [], ◌∷◌, ◌++◌, if◌then◌else◌,
}
use streamerson.Prelude.Value.{Value, Fields, obj, end, field, own}
use streamerson.Emitter.{changed_paths, changed_at, same, extended}

abbrev pub is_nil : List String → Bool
is_nil [] = true
is_nil (x ∷ xs) = false

is_nil-append : (xs ys : List String) → is_nil (xs ++ ys) ≡ (is_nil xs && is_nil ys)
is_nil-append [] ys = refl
is_nil-append (x ∷ xs) ys = refl

is_nil-reported : (b : Bool) (path : String) → is_nil (if b then [] else path ∷ []) ≡ b
is_nil-reported true path = refl
is_nil-reported false path = refl

-- Every value of the new object, however deep, is the old one at its place.
unfoldable mutual
  pub agrees : Value → Value → Bool
  agrees (obj q old) (obj r new) = agree old new
  agrees old new = same new old

  pub agree : Fields → Fields → Bool
  agree old end = true
  agree old (field k v new) = agrees (own old k) v && agree old new

mutual
  unfolding changed_paths agree

  changed_at-nil :
      (old new : Value) (path : String) → is_nil (changed_at old new path) ≡ agrees old new
  changed_at-nil (obj q old) (obj r new) path = changed_paths-nil old new path
  changed_at-nil old new path = is_nil-reported (same new old) path

  changed_paths-nil :
      (old new : Fields) (prefix : String) → is_nil (changed_paths old new prefix) ≡ agree old new
  changed_paths-nil old end prefix = refl
  changed_paths-nil old (field k v new) prefix =
      rw
        (is_nil-append (changed_at (own old k) v (extended prefix k))
          (changed_paths old new prefix))
        (rw (changed_at-nil (own old k) v (extended prefix k))
          (rw (changed_paths-nil old new prefix)))

is_nil_iff : (xs : List String) → (xs ≡ []) ↔ (is_nil xs ≡ true)
is_nil_iff [] = (λ e. refl, λ e. refl)
is_nil_iff (x ∷ xs) = (λ e. cc, λ e. cc)

-- No path is reported as changed exactly if every value of the new state, however deep, is the same as
-- the old one at its place; keys that only the old state has do not count.
pub changed_paths-empty_iff :
    (old new : Fields) (prefix : String)
    → (changed_paths old new prefix ≡ []) ↔ (agree old new ≡ true)
changed_paths-empty_iff old new prefix =
    rw (← changed_paths-nil old new prefix) (is_nil_iff (changed_paths old new prefix))
