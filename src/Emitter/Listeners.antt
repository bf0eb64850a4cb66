-- ===== src/Emitter/Listeners.antt =====
-- Which listeners of a state emitter are called.
use text.Mathlib.TextLemmas.{append_inj, append_cancel_left, append-nil}
use streamerson.Prelude.{
  ℕ, suc, ◌+◌, String, ◌≡◌, ◌≢◌, ◌∙◌, refl, ap, sym, false, ◌==◌, Option, none, some, List, [], ◌∷◌,
  ◌++◌, nat_eq, arith, eq_iff, eq_refl, if◌then◌else◌, Bool-cases, Option-cases, inl, inr,
}
use streamerson.Prelude.Dict
use streamerson.Prelude.Dict.{get-put}
use streamerson.Prelude.Text.{template}
use streamerson.Prelude.Result.{ok, Result-cases, ok-inj}
use streamerson.Prelude.Value.{Value, Fields, obj}
use streamerson.Emitter.{
  StateEmitter, Notice, event_name, subscribed, subscribe, get, get_nested_value, notices, emit,
  emit_each, emit_changes, changed_paths, set, update, deep_merge, output_of, merged,
}

-- The event of a change of a path.
abbrev change : String → String
change path = template ("change:" ∷ path ∷ [])

change-inj : (p q : String) → change p ≡ change q → p ≡ q
unfolding template
change-inj p q e =
    let same = append_cancel_left "change:" _ _ e in sym (append-nil p) ∙ (same ∙ append-nil q)

change-ne-all : (q : String) → change q ≢ "stateChange"
unfolding template
change-ne-all q e =
    let (starts, _) = append_inj {s₁ = "change:"} {s₂ = "stateCh"} {t₂ = "ange"} e refl in
    ground (arith, eq_iff "change:" "stateCh")

-- How often a listener is in a list, and how often it is called.
abbrev pub heard : ℕ → List ℕ → ℕ
heard l [] = 0
heard l (m ∷ ms) = let rest = heard l ms in if nat_eq m l then suc rest else rest

abbrev pub calls_of : ℕ → List Notice → ℕ
calls_of l [] = 0
calls_of l (n ∷ ns) = let rest = calls_of l ns in if nat_eq n.listener l then suc rest else rest

-- How often a path is in a list.
abbrev pub times : String → List String → ℕ
times p [] = 0
times p (q ∷ qs) = let rest = times p qs in if p == q then suc rest else rest

calls_of-append :
    (l : ℕ) (ns ms : List Notice) → calls_of l (ns ++ ms) ≡ calls_of l ns + calls_of l ms
calls_of-append l [] ms = omega arith
calls_of-append l (n ∷ ns) ms = ground (arith, calls_of-append l ns ms)

heard-append : (l : ℕ) (ks ms : List ℕ) → heard l (ks ++ ms) ≡ heard l ks + heard l ms
heard-append l [] ms = omega arith
heard-append l (k ∷ ks) ms = ground (arith, heard-append l ks ms)

calls_of-notices : (l : ℕ) (ls : List ℕ) (v w : Value) → calls_of l (notices ls v w) ≡ heard l ls
unfolding notices
calls_of-notices l [] v w = refl
calls_of-notices l (m ∷ ms) v w = ground (arith, calls_of-notices l ms v w)

-- A listener that no event has.
abbrev pub IsNew : StateEmitter → ℕ → Type 0
IsNew e l = (name : String) (ls : List ℕ) → Dict.get e.listeners name ≡ some ls → heard l ls ≡ 0

heard-subscribed :
    (e : StateEmitter) (l : ℕ) (name : String)
    → IsNew e l
    → heard l (subscribed (Dict.get e.listeners name)) ≡ 0
unfolding subscribed
heard-subscribed e l name new = elim (Option-cases (Dict.get e.listeners name)) [
  | inl h ↦ rw h refl
  | inr (ls, h) ↦ rw h (new name ls h)
]

calls_of-emit :
    (e : StateEmitter) (path name : String) (l : ℕ) (v w : Value)
    → IsNew e l
    → calls_of l (emit (subscribe e path l) name v w) ≡ (if event_name path == name then 1 else 0)
unfolding emit subscribe subscribed
calls_of-emit e path name l v w new =
    rw (calls_of-notices l (subscribed (Dict.get (subscribe e path l).listeners name)) v w) (
      rw
        (get-put e.listeners (event_name path) name
          (subscribed (Dict.get e.listeners (event_name path)) ++ l ∷ []))
        (elim (Bool-cases (event_name path == name)) [
          | inl hit ↦ rw hit (
              ground (
                arith,
                heard-append l (subscribed (Dict.get e.listeners (event_name path))) (l ∷ []),
                heard-subscribed e l (event_name path) new,
              ))
          | inr miss ↦ rw miss (heard-subscribed e l name new)
        ]))

change-same : (p q : String) → (change p == change q) ≡ (p == q)
change-same p q = elim (Bool-cases (p == q)) [
  | inl h ↦ let same = (eq_iff p q).0 h in rw same (rw (eq_refl (change q)) (sym (eq_refl q)))
  | inr h ↦ elim (Bool-cases (change p == change q)) [
    | inl k ↦
        let same = change-inj p q ((eq_iff (change p) (change q)).0 k) in
        ground (arith, h, same, eq_iff p q)
    | inr k ↦ k ∙ sym h
  ]
]

event_name-change :
    (p q : String) → (event_name p == change q) ≡ (if p == "*" then false else p == q)
unfolding event_name
event_name-change p q = elim (Bool-cases (p == "*")) [
  | inl h ↦ rw h (ground (arith, eq_iff "stateChange" (change q), change-ne-all q))
  | inr h ↦ rw h (change-same p q)
]

event_name-all : (p : String) → (event_name p == "stateChange") ≡ (p == "*")
unfolding event_name
event_name-all p = elim (Bool-cases (p == "*")) [
  | inl h ↦ rw h refl
  | inr h ↦ rw h (ground (arith, eq_iff (change p) "stateChange", change-ne-all p))
]

module _ (e : StateEmitter) (path : String) (l : ℕ) (new : IsNew e l) where
  calls_of-emit_each :
      (old : Fields) (paths : List String)
      → calls_of l (emit_each (subscribe e path l) old paths)
        ≡ (if path == "*" then 0 else times path paths)
  unfolding emit_each
  calls_of-emit_each old [] = ground arith
  calls_of-emit_each old (q ∷ qs) =
      let v = get (subscribe e path l) q in
      let w = get_nested_value (obj none old) q in
      ground (
        arith,
        calls_of-append l (emit (subscribe e path l) (change q) v w)
            (emit_each (subscribe e path l) old qs),
        calls_of-emit e path (change q) l v w new,
        event_name-change path q,
        calls_of-emit_each old qs,
      )

  calls_of-emit_changes :
      (old : Fields)
      → calls_of l (emit_changes (subscribe e path l) old)
        ≡ (if path == "*" then 1 else times path (changed_paths old e.state ""))
  unfolding emit_changes subscribe
  calls_of-emit_changes old =
      let paths = changed_paths old e.state "" in
      let v = obj none e.state in
      ground (
        arith,
        calls_of-append l (emit_each (subscribe e path l) old paths)
            (emit (subscribe e path l) "stateChange" v (obj none old)),
        calls_of-emit e path "stateChange" l v (obj none old) new,
        event_name-all path,
        calls_of-emit_each old paths,
      )

-- The calls when the state becomes another.
becomes-calls :
    (e : StateEmitter) (path : String) (l : ℕ) (g : Fields) (ns : List Notice)
    (after : StateEmitter)
    → IsNew e l
    → (let e' = record (subscribe e path l) { state = g } in
        ◌≡◌ {A = List Notice × StateEmitter} (emit_changes e' e.state, e') (ns, after))
    → calls_of l ns ≡ (if path == "*" then 1 else times path (changed_paths e.state after.state ""))
unfolding subscribe
becomes-calls e path l g ns after new h =
    let sent : emit_changes (subscribe (record e { state = g }) path l) e.state ≡ ns =
      ap (λ x. x.0) h in
    let same : g ≡ after.state = ap (λ x. x.1.state) h in
    rw (← sent) (rw (← same) (calls_of-emit_changes (record e { state = g }) path l new e.state))

-- A listener that no event of an emitter has subscribes to a path, and then the state is set, or an update
-- succeeds. If the path is the star, it is called once; else it is called once for each time that the path
-- is among the changed ones, and not at all if it is not.
pub subscribe-calls :
    (e : StateEmitter) (path : String) (l : ℕ) (r s : Option ℕ) (fs partial : Fields)
    (ns ms : List Notice) (after later : StateEmitter)
    → IsNew e l
    → set (subscribe e path l) (obj r fs) ≡ ok (ns, after)
    → update (subscribe e path l) s partial ≡ ok (ms, later)
    → (calls_of l ns
        ≡ (if path == "*" then 1 else times path (changed_paths e.state after.state "")))
      × (calls_of l ms
          ≡ (if path == "*" then 1 else times path (changed_paths e.state later.state "")))
unfolding set update merged subscribe
subscribe-calls e path l r s fs partial ns ms after later new h k = (
  becomes-calls e path l fs ns after new (ok-inj h),
  elim (Result-cases (deep_merge (obj none e.state) (obj s partial) [])) [
    | inl (v, made) ↦ becomes-calls e path l (output_of v) ms later new (ok-inj (rw made at k))
    | inr (m, failed) ↦ absurd (ground (arith, rw failed at k))
  ],
)
