-- ===== src/Emitter.antt =====
-- The state emitter: packages/emitter/emitter.ts. A state and what is merged into it are objects, given by
-- their fields; a cyclic object is given up to where an identity is met again, beyond which the code does
-- not look. Properties that primitives and prototypes have are left out. Listeners are numbers.
pub mod Merging
pub mod Listeners
pub mod Changes
pub mod Paths
use streamerson.Prelude.{
  ℕ, String, ◌==◌, Bool, true, false, Option, none, some, List, [], ◌∷◌, ◌++◌, nat_eq, truthy,
  if◌then◌else◌,
}
use streamerson.Prelude.Result.{Result, ok, err, ◌>>=◌, map_ok, rethrow}
use streamerson.Prelude.Text.{template, split_dots}
use streamerson.Prelude.Integer.{ℤ, pos, negsuc}
use streamerson.Prelude.Dict
use streamerson.Prelude.Dict.{Dict}
use streamerson.Prelude.Value.{
  Value, Fields, undefined, null, bool, num, str, arr, obj, end, field, own, assign,
}

-- `seen.has(source)`: an object that was just made has not been seen.
abbrev pub was_seen : Option ℕ → List ℕ → Bool
was_seen r [] = false
was_seen none (m ∷ seen) = false
was_seen (some n) (m ∷ seen) = if nat_eq n m then true else was_seen (some n) seen

-- `seen.add(source)`; it is taken off again when the merge of the source is done.
abbrev pub seen_with : Option ℕ → List ℕ → List ℕ
seen_with none seen = seen
seen_with (some n) seen = n ∷ seen

-- `target && target[key]`, as far as it may be an object.
unfoldable pub target_at : Value → String → Value
target_at (obj r fs) k = own fs k
target_at (arr r fs) k = own fs k
target_at _ k = undefined

-- `isObject(target) ? { ...target } : {}`
unfoldable pub output_of : Value → Fields
output_of (obj r fs) = fs
output_of _ = end

unfoldable mutual
  -- `deepMerge(target, source, seen)`
  pub deep_merge : Value → Value → List ℕ → Result Value
  deep_merge target (obj r fs) seen =
      if was_seen r seen
      then err "Circular reference detected"
      else map_ok (obj none) (merge_fields (output_of target) target fs (seen_with r seen))
  deep_merge target source seen = ok source

  pub merge_fields : Fields → Value → Fields → List ℕ → Result Fields
  merge_fields output target end seen = ok output
  merge_fields output target (field k v fs) seen = deep_merge (target_at target k) v seen >>= λ w.
      merge_fields (assign output k w) target fs seen

int_eq : ℤ → ℤ → Bool
int_eq (pos a) (pos b) = nat_eq a b
int_eq (negsuc a) (negsuc b) = nat_eq a b
int_eq a b = false

bool_eq : Bool → Bool → Bool
bool_eq true b = b
bool_eq false true = false
bool_eq false false = true

ref_eq : Option ℕ → Option ℕ → Bool
ref_eq (some a) (some b) = nat_eq a b
ref_eq a b = false

-- `===`, where not both are objects.
unfoldable pub same : Value → Value → Bool
unfolding int_eq bool_eq ref_eq
same undefined undefined = true
same null null = true
same (bool a) (bool b) = bool_eq a b
same (num a) (num b) = int_eq a b
same (str a) (str b) = a == b
same (arr r fs) (arr q gs) = ref_eq r q
same v w = false

abbrev pub extended : String → String → String
extended prefix key = if truthy prefix then template (prefix ∷ "." ∷ key ∷ []) else key

unfoldable mutual
  -- `getChangedPaths(oldObj, newObj, currentPath)`
  pub changed_paths : Fields → Fields → String → List String
  changed_paths old end prefix = []
  changed_paths old (field k v new) prefix =
      changed_at (own old k) v (extended prefix k) ++ changed_paths old new prefix

  pub changed_at : Value → Value → String → List String
  changed_at (obj q old) (obj r new) path = changed_paths old new path
  changed_at old new path = if same new old then [] else path ∷ []

-- `result[key]`
unfoldable pub index : Value → String → Value
index (obj r fs) k = own fs k
index (arr r fs) k = own fs k
index _ k = undefined

unfoldable pub walk : Value → List String → Value
unfolding index
walk v [] = v
walk v (k ∷ ks) = walk (index v k) ks

-- `getNestedValue(obj, path)`
unfoldable pub get_nested_value : Value → String → Value
unfolding walk
get_nested_value v path = walk v (split_dots path)

-- The listeners of an event are called in the order in which they subscribed.
pub record StateEmitter : Type 0 where
  pub state : Fields
  pub listeners : Dict (List ℕ)

-- A call of a listener: with the new value and the old one.
pub record Notice : Type 0 where
  pub listener : ℕ
  pub new_value : Value
  pub old_value : Value

unfoldable pub new_emitter : Fields → StateEmitter
new_emitter initial = record { state = initial; listeners = [] }

event_name : String → String
event_name path = if path == "*" then "stateChange" else template ("change:" ∷ path ∷ [])

subscribed : Option (List ℕ) → List ℕ
subscribed none = []
subscribed (some ls) = ls

unfoldable pub subscribe : StateEmitter → String → ℕ → StateEmitter
unfolding event_name subscribed
subscribe e path listener = record e {
  listeners =
      Dict.put e.listeners (event_name path)
        (subscribed (Dict.get e.listeners (event_name path)) ++ listener ∷ []);
}

unfoldable pub get : StateEmitter → String → Value
get e path = if path == "*" then obj none e.state else get_nested_value (obj none e.state) path

unfoldable pub notices : List ℕ → Value → Value → List Notice
notices [] v w = []
notices (l ∷ ls) v w = record { listener = l; new_value = v; old_value = w } ∷ notices ls v w

unfoldable pub emit : StateEmitter → String → Value → Value → List Notice
unfolding notices subscribed
emit e name v w = notices (subscribed (Dict.get e.listeners name)) v w

unfoldable pub emit_each : StateEmitter → Fields → List String → List Notice
unfolding emit
emit_each e old [] = []
emit_each e old (path ∷ paths) =
    emit e (template ("change:" ∷ path ∷ [])) (get e path) (get_nested_value (obj none old) path)
    ++ emit_each e old paths

unfoldable pub emit_changes : StateEmitter → Fields → List Notice
unfolding emit_each emit
emit_changes e old =
    emit_each e old (changed_paths old e.state "")
    ++ emit e "stateChange" (obj none e.state) (obj none old)

unfoldable pub merged : StateEmitter → Result Value → Result (List Notice × StateEmitter)
merged e (ok v) = let e' = record e { state = output_of v } in ok (emit_changes e' e.state, e')
merged e (err m) = err "Cannot update with circular reference"

-- `update(partialState)`: of an object and its identity.
unfoldable pub update : StateEmitter → Option ℕ → Fields → Result (List Notice × StateEmitter)
unfolding merged
update e r partial = merged e (deep_merge (obj none e.state) (obj r partial) [])

-- `set(newState)`
unfoldable pub set : StateEmitter → Value → Result (List Notice × StateEmitter)
set e (obj r fs) = let e' = record e { state = fs } in ok (emit_changes e' e.state, e')
set e v = err "newState must be an object"
