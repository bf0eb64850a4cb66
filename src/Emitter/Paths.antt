-- ===== src/Emitter/Paths.antt =====
-- What listeners are told of a change: the values at its path.
use streamerson.Prelude.{
  ℕ, String, ◌≡◌, refl, ap, sym, ◌∙◌, true, false, Option, none, List, [], ◌∷◌, ◌++◌, All,
  All-append, truthy, truthy_iff, ◌==◌, ◌⊎◌, inl, inr, Bool-cases, if◌then◌else◌,
}
use streamerson.Prelude.Result.{Result, ok, err, ok-inj}
use mathlib.Core.Path.{subst}
use text.Mathlib.TextLemmas.{cons-append}
use streamerson.Prelude.Text.{split_dots, template}
use streamerson.Prelude.Text.Splitting.{dotless, split_dots-dotless, split_dots-template}
use streamerson.Prelude.Value.{Value, Fields, undefined, obj, end, field, own}
use streamerson.Emitter.{
  changed_paths, changed_at, same, extended, index, walk, get_nested_value, StateEmitter, Notice,
  notices, emit, emit_each, emit_changes, get, merged, update, set, output_of,
}

-- The keys of the fields of an object, and of all objects in it, are not empty, have no dot and are
-- not repeated: each is that of its value.
unfoldable mutual
  pub HasPaths : Value → Type 0
  HasPaths (obj r fs) = HasFields fs fs
  HasPaths _ = Unit

  pub HasFields : Fields → Fields → Type 0
  HasFields whole end = Unit
  HasFields whole (field k v fs) =
      (truthy k ≡ true) × (dotless k ≡ true) × (own whole k ≡ v) × HasPaths v × HasFields whole fs

walk-append :
    (v : Value) (ks : List String) (k : String) → walk v (ks ++ k ∷ []) ≡ index (walk v ks) k
unfolding walk
walk-append v [] k = refl
walk-append v (j ∷ ks) k = walk-append (index v j) ks k

-- A path is the keys that it is split into; no path is no keys.
abbrev At : String → List String → Type 0
At path [] = path ≡ ""
At path (k ∷ ks) = (truthy path ≡ true) × (split_dots path ≡ k ∷ ks)

truthy-template : (s k : String) → truthy s ≡ true → truthy (template (s ∷ "." ∷ k ∷ [])) ≡ true
unfolding template
truthy-template String.[] k h = cc
truthy-template (String.◌∷◌ c s) k h = rw cons-append ((truthy_iff _).1 (λ e. cc))

extended-At :
    (path : String) (ks : List String) (k : String)
    → At path ks
    → truthy k ≡ true
    → dotless k ≡ true
    → (truthy (extended path k) ≡ true) × (split_dots (extended path k) ≡ ks ++ k ∷ [])
extended-At path [] k at named plain = rw at (named, split_dots-dotless k plain)
extended-At path (j ∷ ks) k at named plain =
    rw at.0
      (truthy-template path k at.0, split_dots-template path k plain ∙ ap (λ l. l ++ k ∷ []) at.1)

At-append :
    (path : String) (ks : List String) (k : String)
    → truthy path ≡ true
    → split_dots path ≡ ks ++ k ∷ []
    → At path (ks ++ k ∷ [])
At-append path [] k named split = (named, split)
At-append path (j ∷ ks) k named split = (named, split)

module _ (new old : Value) where
  -- The values at a path are not the same.
  abbrev pub Differs : String → Type 0
  Differs path = same (get_nested_value new path) (get_nested_value old path) ≡ false

  reported-Differs :
      (v w : Value) (path : String)
      → get_nested_value new path ≡ v
      → get_nested_value old path ≡ w
      → All Differs (if same v w then [] else path ∷ [])
  reported-Differs v w path there before = elim (Bool-cases (same v w)) [
    | inl equal ↦ rw equal tt
    | inr other ↦ rw other (rw there (rw before other), tt)
  ]

-- A path leads to the values.
Leads : Value → Value → List String → Value → Value → Type 0
Leads new old ks v w = (walk new ks ≡ v) × (walk old ks ≡ w)

mutual
  unfolding changed_paths HasPaths get_nested_value

  changed_at-Differs :
      (new old w v : Value) (path : String) (ks : List String)
      → split_dots path ≡ ks
      → At path ks
      → walk new ks ≡ v
      → walk old ks ≡ w
      → HasPaths v
      → All (Differs new old) (changed_at w v path)
  changed_at-Differs new old (obj q ws) (obj r vs) path ks split at there before keyed =
      changed_paths-Differs new old ws vs vs q r path ks at there before keyed
  changed_at-Differs new old w v path ks split at there before keyed =
      reported-Differs new old v w path (rw split there) (rw split before)

  changed_paths-Differs :
      (new old : Value) (ws whole fs : Fields) (q r : Option ℕ) (path : String) (ks : List String)
      → At path ks
      → walk new ks ≡ obj r whole
      → walk old ks ≡ obj q ws
      → HasFields whole fs
      → All (Differs new old) (changed_paths ws fs path)
  changed_paths-Differs new old ws whole end q r path ks at there before keyed = tt
  changed_paths-Differs new old ws whole (field k v fs) q r path ks at there before
        (named, plain, here, deep, more) =
      let (named', split) = extended-At path ks k at named plain in
      All-append (Differs new old) (changed_at (own ws k) v (extended path k))
        (changed_paths ws fs path)
        (changed_at-Differs new old (own ws k) v (extended path k) (ks ++ k ∷ []) split
          (At-append (extended path k) ks k named' split) (walk-append new ks k ∙ rw there here)
          (walk-append old ks k ∙ rw before refl) deep)
        (changed_paths-Differs new old ws whole fs q r path ks at there before more)

-- A listener that is called is told of two values that are not the same.
abbrev pub Tells : Notice → Type 0
Tells n = same n.new_value n.old_value ≡ false

same-obj : (r : Option ℕ) (fs : Fields) (w : Value) → same (obj r fs) w ≡ false
unfolding same
same-obj r fs undefined = refl
same-obj r fs w = refl

notices-Tells : (ls : List ℕ) (v w : Value) → same v w ≡ false → All Tells (notices ls v w)
unfolding notices
notices-Tells [] v w h = tt
notices-Tells (l ∷ ls) v w h = (h, notices-Tells ls v w h)

emit-Tells :
    (e : StateEmitter) (name : String) (v w : Value)
    → same v w ≡ false
    → All Tells (emit e name v w)
unfolding emit
emit-Tells e name v w h = notices-Tells _ v w h

get-Differs :
    (e : StateEmitter) (w : Value) (path : String)
    → same (get_nested_value (obj none e.state) path) w ≡ false
    → same (get e path) w ≡ false
unfolding get
get-Differs e w path h = elim (Bool-cases (path == "*")) [
  | inl star ↦ rw star (same-obj none e.state w)
  | inr other ↦ rw other h
]

emit_each-Tells :
    (e : StateEmitter) (old : Fields) (paths : List String)
    → All (Differs (obj none e.state) (obj none old)) paths
    → All Tells (emit_each e old paths)
unfolding emit_each
emit_each-Tells e old [] h = tt
emit_each-Tells e old (path ∷ paths) h =
    All-append Tells (emit e (template ("change:" ∷ path ∷ [])) _ _) (emit_each e old paths)
      (emit-Tells e _ _ _ (get-Differs e _ path h.0)) (emit_each-Tells e old paths h.1)

-- What the listeners of the changed paths are told.
abbrev pub path_notices : StateEmitter → Fields → List Notice
path_notices e old = emit_each e old (changed_paths old e.state "")

-- The notices of a change and the emitter after it, from an old state: those of the changed paths, which
-- all tell of a change, and then those of the whole state.
abbrev pub IsTold : Fields → List Notice × StateEmitter → Type 0
IsTold old x =
    (x.0 ≡ path_notices x.1 old ++ emit x.1 "stateChange" (obj none x.1.state) (obj none old))
    × All Tells (path_notices x.1 old)

emit_changes-IsTold :
    (e : StateEmitter) (old : Fields)
    → HasFields e.state e.state
    → IsTold old (emit_changes e old, e)
unfolding emit_changes walk
emit_changes-IsTold e old keyed = (
  refl,
  emit_each-Tells e old _ (
      changed_paths-Differs (obj none e.state) (obj none old) old e.state e.state none none "" []
        refl refl refl keyed),
)

ok-IsTold :
    (e e' : StateEmitter) (old : Fields) (ns : List Notice)
    → ◌≡◌ {A = Result (List Notice × StateEmitter)} (ok (emit_changes e old, e)) (ok (ns, e'))
    → HasFields e'.state e'.state
    → IsTold old (ns, e')
ok-IsTold e e' old ns h keyed =
    let both = ok-inj h in
    subst (IsTold old) both (
      emit_changes-IsTold e old (
        subst (λ (x : StateEmitter). HasFields x.state x.state)
          (sym (ap (λ (x : List Notice × StateEmitter). x.1) both)) keyed))

merged-IsTold :
    (e e' : StateEmitter) (ns : List Notice) (r : Result Value)
    → merged e r ≡ ok (ns, e')
    → HasFields e'.state e'.state
    → IsTold e.state (ns, e')
unfolding merged
merged-IsTold e e' ns (ok v) h keyed =
    ok-IsTold (record e { state = output_of v }) e' e.state ns h keyed
merged-IsTold e e' ns (err m) h keyed = cc

-- After a state was set, or an update succeeded, so that no key in the new state, however deep, is empty,
-- repeated or has a dot: first the listeners of the changed paths are called, and each of them is told of
-- a new value and an old one that are not the same, as `===` has it; then those of the whole state, which
-- are told of the new state and the old one, also when no path changed.
pub update-Tells :
    (e e' : StateEmitter) (ns : List Notice) (r : Option ℕ) (fs : Fields)
    → (update e r fs ≡ ok (ns, e')) ⊎ (set e (obj r fs) ≡ ok (ns, e'))
    → HasFields e'.state e'.state
    → (ns ≡ path_notices e' e.state ++ emit e' "stateChange" (obj none e'.state) (obj none e.state))
      × All Tells (path_notices e' e.state)
unfolding update set
update-Tells e e' ns r fs (inl updated) keyed = merged-IsTold e e' ns _ updated keyed
update-Tells e e' ns r fs (inr changed) keyed =
    ok-IsTold (record e { state = fs }) e' e.state ns changed keyed
