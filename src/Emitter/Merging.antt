-- ===== src/Emitter/Merging.antt =====
-- When a merge succeeds, and what it leaves alone.
use streamerson.Prelude.{
  ℕ, String, ◌≡◌, refl, ◌==◌, eq_iff, arith, Bool, true, false, ◌&&◌, not, Option, none, List, [],
  if◌then◌else◌, Bool-cases, inl, inr, ◌⊎◌, ◌∙◌,
}
use streamerson.Prelude.Result.{Result, ok, err, is_ok, map_ok, ◌>>=◌, Result-cases}
use streamerson.Prelude.Value.{
  Value, Fields, undefined, null, bool, num, str, arr, obj, end, field, own, assign,
}
use streamerson.Emitter.{
  deep_merge, merge_fields, was_seen, seen_with, target_at, output_of, StateEmitter, Notice, update,
  merged,
}

-- No object is met again below itself: a description of the source alone.
mutual
  pub acyclic : Value → List ℕ → Bool
  acyclic (obj r fs) seen = not (was_seen r seen) && acyclic_fields fs (seen_with r seen)
  acyclic v seen = true

  pub acyclic_fields : Fields → List ℕ → Bool
  acyclic_fields end seen = true
  acyclic_fields (field k v fs) seen = acyclic v seen && acyclic_fields fs seen

is_ok-map_ok : {A B : Type 0} (f : A → B) (r : Result A) → is_ok (map_ok f r) ≡ is_ok r
is_ok-map_ok f (ok a) = refl
is_ok-map_ok f (err e) = refl

is_ok-bind :
    {A B : Type 0} (m : Result A) (f : A → Result B) (b c : Bool)
    → is_ok m ≡ b
    → ((a : A) → is_ok (f a) ≡ c)
    → is_ok (m >>= f) ≡ (b && c)
is_ok-bind (ok a) f b c h k = rw (← h) (k a)
is_ok-bind (err e) f b c h k = rw (← h) refl

mutual
  unfolding deep_merge acyclic

  merge-ok :
      (target source : Value) (seen : List ℕ)
      → is_ok (deep_merge target source seen) ≡ acyclic source seen
  merge-ok target (obj r fs) seen = elim (Bool-cases (was_seen r seen)) [
    | inl met ↦ rw met
    | inr new ↦
        rw new (rw is_ok-map_ok (merge_fields-ok (output_of target) target fs (seen_with r seen)))
  ]
  merge-ok target undefined seen = refl
  merge-ok target null seen = refl
  merge-ok target (bool b) seen = refl
  merge-ok target (num n) seen = refl
  merge-ok target (str s) seen = refl
  merge-ok target (arr r fs) seen = refl

  merge_fields-ok :
      (output : Fields) (target : Value) (source : Fields) (seen : List ℕ)
      → is_ok (merge_fields output target source seen) ≡ acyclic_fields source seen
  merge_fields-ok output target end seen = refl
  merge_fields-ok output target (field k v fs) seen =
      is_ok-bind (deep_merge (target_at target k) v seen) _ (acyclic v seen)
        (acyclic_fields fs seen) (merge-ok (target_at target k) v seen)
        (λ w. merge_fields-ok (assign output k w) target fs seen)

-- `k in fs`, for own keys.
abbrev pub has_key : Fields → String → Bool
has_key end k = false
has_key (field j v fs) k = if j == k then true else has_key fs k

-- The fields of an object have different keys.
abbrev pub Distinct : Fields → Type 0
Distinct end = Unit
Distinct (field k v fs) = (has_key fs k ≡ false) × Distinct fs

pub own-assign :
    (fs : Fields) (k j : String) (v : Value)
    → own (assign fs k v) j ≡ (if k == j then v else own fs j)
unfolding own assign
own-assign end k j v = refl
own-assign (field i w fs) k j v =
    ground (arith, own-assign fs k j v, eq_iff i k, eq_iff i j, eq_iff k j)

-- A key that the source does not have keeps the value of the output.
merge_fields-other :
    (output : Fields) (target : Value) (source : Fields) (seen : List ℕ) (k : String)
    (merged : Fields)
    → merge_fields output target source seen ≡ ok merged
    → has_key source k ≡ false
    → own merged k ≡ own output k
unfolding deep_merge
merge_fields-other output target end seen k merged h n = let same : output ≡ merged = cc in rw same
merge_fields-other output target (field j v fs) seen k merged h n =
    elim (Result-cases (deep_merge (target_at target j) v seen)) [
      | inr (e, failed) ↦ absurd (ground (arith, rw failed at h))
      | inl (w, made) ↦
          merge_fields-other (assign output j w) target fs seen k merged (rw made at h)
            (ground (arith, n))
          ∙ ground (arith, own-assign output j k w, n)
    ]

merge_fields-own :
    (output : Fields) (target : Value) (source : Fields) (seen : List ℕ) (k : String)
    (merged : Fields)
    → Distinct source
    → merge_fields output target source seen ≡ ok merged
    → has_key source k ≡ true
    → deep_merge (target_at target k) (own source k) seen ≡ ok (own merged k)
unfolding deep_merge own
merge_fields-own output target end seen k merged d h n = cc
merge_fields-own output target (field j v fs) seen k merged d h n =
    elim (Result-cases (deep_merge (target_at target j) v seen)) [
      | inr (e, failed) ↦ absurd (ground (arith, rw failed at h))
      | inl (w, made) ↦ elim (Bool-cases (j == k)) [
        | inl same ↦
            let equal : j ≡ k = (eq_iff j k).0 same in
            let kept : own merged k ≡ own (assign output j w) k =
              merge_fields-other (assign output j w) target fs seen k merged (rw made at h)
                (rw equal at d.0) in
            rw same (rw kept (rw (own-assign output j k w) (rw same (rw (← equal) made))))
        | inr other ↦ rw other (
            merge_fields-own (assign output j w) target fs seen k merged d.1 (rw made at h)
              (rw other at n))
      ]
    ]

is_ok-merged : (e : StateEmitter) (r : Result Value) → is_ok (merged e r) ≡ is_ok r
unfolding merged
is_ok-merged e (ok v) = refl
is_ok-merged e (err m) = refl

-- An update fails exactly if an object is met again below itself in what is merged in, whatever the
-- state is.
pub update-ok :
    (e : StateEmitter) (r : Option ℕ) (partial : Fields)
    → is_ok (update e r partial) ≡ acyclic (obj r partial) []
unfolding update
update-ok e r partial =
    is_ok-merged e (deep_merge (obj none e.state) (obj r partial) [])
    ∙ merge-ok (obj none e.state) (obj r partial) []

-- After an update that succeeds, with an object of different keys, the state has at each key of that
-- object the old value merged with the new one, and at any other key the old value.
pub update-own :
    (e : StateEmitter) (r : Option ℕ) (partial : Fields) (k : String) (sent : List Notice)
    (after : StateEmitter)
    → Distinct partial
    → update e r partial ≡ ok (sent, after)
    → ((has_key partial k ≡ true)
        × (deep_merge (own e.state k) (own partial k) (seen_with r []) ≡ ok (own after.state k)))
      ⊎ ((has_key partial k ≡ false) × (own after.state k ≡ own e.state k))
unfolding update merged deep_merge target_at output_of
update-own e r partial k sent after d h =
    elim (Result-cases (merge_fields e.state (obj none e.state) partial (seen_with r []))) [
      | inr (m, failed) ↦ absurd (ground (arith, rw failed at h))
      | inl (fs, made) ↦
          let equal = rw made at h in
          let same : fs ≡ after.state = ground (arith, equal) in
          elim (Bool-cases (has_key partial k)) [
            | inl there ↦ inl (
              there,
              rw (← same) (merge_fields-own e.state (obj none e.state) partial _ k fs d made there),
            )
            | inr missing ↦ inr (
              missing,
              rw (← same)
                  (merge_fields-other e.state (obj none e.state) partial _ k fs made missing),
            )
          ]
    ]
