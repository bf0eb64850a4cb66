-- ===== src/Keys/Separation.antt =====
-- Different topics, shards and directions give different stream keys.
use Prim.Native.String.{◌++◌, count}
use text.Mathlib.TextLemmas.{append_inj, append_cancel_left, append_cancel_right, length-append}
use streamerson.Prelude.{
  String, ◌≡◌, refl, ◌≢◌, ◌↔◌, ap, sym, Option, none, some, arith, truthy, eq_iff, if◌then◌else◌,
}
use streamerson.Keys.{Topic, shard_decorator, consumer_key, producer_key}

-- Two texts with ends of one length are equal only if their beginnings and their ends are.
append_inj_right :
    (s₁ s₂ t₁ t₂ : String) → s₁ ++ t₁ ≡ s₂ ++ t₂ → count t₁ ≡ count t₂ → (s₁ ≡ s₂) × (t₁ ≡ t₂)
append_inj_right s₁ s₂ t₁ t₂ e c =
    append_inj e (let total = ap count e in omega (arith, length-append s₁ t₁, length-append s₂ t₂))

-- No topic and shard have a reading key that is the writing key of any topic and shard.
pub consumer_key-ne-producer_key :
    (t u : Topic) (s r : Option String) → consumer_key t s ≢ producer_key u r
unfolding consumer_key producer_key
consumer_key-ne-producer_key t u s r e =
    let (_, ends) = append_inj_right _ _ "::CONSUMER_INCOMING" "::PRODUCER_OUTGOING" e refl in
    ground (arith, eq_iff "::CONSUMER_INCOMING" "::PRODUCER_OUTGOING")

-- An empty shard counts as none.
abbrev pub effective_shard : Option String → Option String
effective_shard none = none
effective_shard (some s) = if truthy s then some s else none

-- A key with a shard is longer than the key alone.
pub sharded-ne : (key s : String) → key ++ ("#" ++ s) ≢ key
sharded-ne key s e =
    let total = ap count e in omega (arith, length-append key ("#" ++ s), length-append "#" s)

pub shard_some : (key s : String) → s ≢ "" → shard_decorator key (some s) ≡ key ++ ("#" ++ s)
unfolding shard_decorator
shard_some key s h = ground (arith, eq_iff s "")

sharded-inj : (key s r : String) → key ++ ("#" ++ s) ≡ key ++ ("#" ++ r) → s ≡ r
sharded-inj key s r e = append_cancel_left "#" s r (append_cancel_left key ("#" ++ s) ("#" ++ r) e)

pub shard_decorator-inj :
    (key : String) (s r : Option String)
    → shard_decorator key s ≡ shard_decorator key r
    → effective_shard s ≡ effective_shard r
unfolding shard_decorator
shard_decorator-inj key none none e = refl
shard_decorator-inj key none (some r) e = ground (arith, sharded-ne key r, sym e)
shard_decorator-inj key (some s) none e = ground (arith, sharded-ne key s)
shard_decorator-inj key (some s) (some r) e =
    ground (arith, sharded-ne key s, sharded-ne key r, sharded-inj key s r, sym e)

shard_decorator-effective :
    (key : String) (s r : Option String)
    → effective_shard s ≡ effective_shard r
    → shard_decorator key s ≡ shard_decorator key r
unfolding shard_decorator
shard_decorator-effective key none none e = refl
shard_decorator-effective key none (some r) e = ground arith
shard_decorator-effective key (some s) none e = ground arith
shard_decorator-effective key (some s) (some r) e = ground arith

-- For one topic, two shards have the same reading key exactly when they are the same shard, where an
-- empty shard counts as no shard.
pub consumer_key-eq_iff :
    (t : Topic) (s r : Option String)
    → (consumer_key t s ≡ consumer_key t r) ↔ (effective_shard s ≡ effective_shard r)
unfolding consumer_key
consumer_key-eq_iff t s r = (
  λ e. shard_decorator-inj t.topic s r (
      append_cancel_left "::" _ _
        (append_cancel_left t.namespace _ _ (append_cancel_right _ _ "::CONSUMER_INCOMING" e))),
  λ e. rw (shard_decorator-effective t.topic s r e),
)
