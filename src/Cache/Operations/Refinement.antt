-- ===== src/Cache/Operations/Refinement.antt =====
-- An owner that replicates a state reads what it wrote: its cache implements a dictionary, whatever
-- becomes of its commands to Redis, for as long as an entry lives.
use streamerson.Prelude.{
  ℕ, ◌+◌, leb, if◌then◌else◌, ◌⊎◌, String, ◌≡◌, ◌≢◌, ◌∙◌, refl, true, ◌==◌, Option, none, some,
  List, [], ◌∷◌, eq_iff, truthy, arith, All, Option-cases, Bool-cases, inl, inr,
}
use streamerson.Prelude.Result.{Result, ok}
use streamerson.Prelude.Value.{Value, str}
use streamerson.Redis.{Redis}
use streamerson.Cache.{Lru, ttl, CacheableDataSource, KeyOptions, cache_key, begin_read, end_get}
use streamerson.Cache.Operations.{get, set}
use streamerson.Cache.Operations.Ownership.{owned}

pub data Use : Type 0 where
  writes : KeyOptions → String → Use
  reads : KeyOptions → Use
  -- milliseconds that pass
  waits : ℕ → Use

-- What was written last to each key, and how long ago.
abbrev pub Written : Type 0
Written = String → Option (String × ℕ)

abbrev pub nothing_written : Written
nothing_written k = none

abbrev wrote : Written → String → String → Written
wrote m key t k = if key == k then some (t, 0) else m k

abbrev older : ℕ → Option (String × ℕ) → Option (String × ℕ)
older n none = none
older n (some (t, a)) = some (t, a + n)

-- A text that was written within the time to live.
abbrev fresh : Option (String × ℕ) → Option String
fresh none = none
fresh (some (t, a)) = if leb a ttl then some t else none

-- What a dictionary of the texts that were written within the time to live would answer to the reads.
abbrev pub replay : List Use → Written → List (Option String)
replay [] m = []
replay (writes o t ∷ us) m = replay us (wrote m (cache_key o) t)
replay (reads o ∷ us) m = fresh (m (cache_key o)) ∷ replay us m
replay (waits n ∷ us) m = replay us (λ k. older n (m k))

-- Answers agree with those of the dictionary where it has one.
abbrev pub Agrees : List (Option String) → List (Result Value) → Type 0
Agrees [] [] = Unit
Agrees (none ∷ ts) (r ∷ rs) = Agrees ts rs
Agrees (some t ∷ ts) (r ∷ rs) = (r ≡ ok (str t)) × Agrees ts rs
Agrees _ _ = ⊥

-- A write of a text that is not empty.
abbrev pub IsFull : Use → Type 0
IsFull (writes o t) = truthy t ≡ true
IsFull (reads o) = Unit
IsFull (waits n) = Unit

module _ {C : Type 0} (lru : Lru C) {S : Type 0} (redis : Redis S) where
  abbrev write : KeyOptions → String → CacheableDataSource C → S → CacheableDataSource C × S
  write o t d s = let r = set lru redis o (str t) (owned true) d s in (r.source, r.server)

  abbrev read : KeyOptions → CacheableDataSource C → S → Result Value × CacheableDataSource C × S
  read o d s = let r = get lru redis o (owned true) d s in (r.result, r.source, r.server)

  abbrev wait : ℕ → CacheableDataSource C → CacheableDataSource C
  wait n d = record d { cache = lru.pass n d.cache }

  -- The answers to the reads.
  abbrev pub answers : List Use → CacheableDataSource C → S → List (Result Value)
  answers [] d s = []
  answers (writes o t ∷ us) d s = let (d', s') = write o t d s in answers us d' s'
  answers (reads o ∷ us) d s = let (r, d', s') = read o d s in r ∷ answers us d' s'
  answers (waits n ∷ us) d s = answers us (wait n d) s

  -- What was written within the time to live is in the cache, and no older than it is.
  Holds : Written → CacheableDataSource C → Type 0
  Holds m d =
      (k t : String) (a : ℕ)
      → m k ≡ some (t, a)
      → leb a ttl ≡ true
      → (lru.get d.cache k ≡ some (str t)) × (truthy t ≡ true) × (leb (lru.age d.cache k) a ≡ true)

  write-Holds :
      (m : Written) (o : KeyOptions) (t : String) (d : CacheableDataSource C) (s : S)
      → truthy t ≡ true
      → Holds m d
      → Holds (wrote m (cache_key o) t) (write o t d s).0
  unfolding Holds set
  write-Holds m o t d s full h k u a f young = elim (Bool-cases (cache_key o == k)) [
    | inl hit ↦ ground (
      arith,
      rw hit at f,
      hit,
      full,
      lru.get-set d.cache (cache_key o) k (str t),
      lru.age-set d.cache (cache_key o) k (str t),
    )
    | inr miss ↦ ground (
      arith,
      miss,
      h k u a (rw miss at f) young,
      lru.get-set d.cache (cache_key o) k (str t),
      lru.age-set d.cache (cache_key o) k (str t),
    )
  ]

  wait-Holds :
      (m : Written) (n : ℕ) (d : CacheableDataSource C)
      → Holds m d
      → Holds (λ k. older n (m k)) (wait n d)
  unfolding Holds
  wait-Holds m n d h k t a f young = elim (Option-cases (m k)) [
    | inl unknown ↦ ground (arith, rw unknown at f)
    | inr ((u, b), known) ↦
        let aged = rw known at f in
        let (found, full, age) = h k u b known (ground (arith, aged, young)) in
        ground (
          arith,
          aged,
          young,
          found,
          full,
          age,
          lru.get-pass n d.cache k (ground (arith, aged, young, age)),
          lru.age-pass n d.cache k,
        )
  ]

  read-found :
      (o : KeyOptions) (t : String) (d : CacheableDataSource C) (s : S)
      → truthy t ≡ true
      → lru.get d.cache (cache_key o) ≡ some (str t)
      → ((read o d s).0 ≡ ok (str t)) × ((read o d s).1 ≡ d) × ((read o d s).2 ≡ s)
  unfolding get begin_read
  read-found o t d s full found = rw found (rw full (refl, refl, refl))

  read-other :
      (o : KeyOptions) (k : String) (d : CacheableDataSource C) (s : S)
      → cache_key o ≢ k
      → (lru.get (read o d s).1.cache k ≡ lru.get d.cache k)
        × (lru.age (read o d s).1.cache k ≡ lru.age d.cache k)
  unfolding get begin_read end_get
  read-other o k d s differ = (
    grind (arith, lru.get-set, lru.get-delete, eq_iff),
    grind (arith, lru.age-set, lru.age-delete, eq_iff),
  )

  read-Holds :
      (m : Written) (o : KeyOptions) (d : CacheableDataSource C) (s : S)
      → fresh (m (cache_key o)) ≡ none
      → Holds m d
      → Holds m (read o d s).1
  unfolding Holds
  read-Holds m o d s unknown h k u a f young =
      let differ : cache_key o ≢ k = λ same. ground (arith, rw (same, f) at unknown, young) in
      let (found, full, age) = h k u a f young in
      let (kept, same_age) = read-other o k d s differ in (kept ∙ found, full, rw same_age age)

  fresh-cases :
      (w : Option (String × ℕ))
      → (fresh w ≡ none)
        ⊎ ((t : String) × (a : ℕ) × (w ≡ some (t, a)) × (leb a ttl ≡ true) × (fresh w ≡ some t))
  fresh-cases none = inl refl
  fresh-cases (some (t, a)) = elim (Bool-cases (leb a ttl)) [
    | inl young ↦ inr (t, a, refl, young, rw young refl)
    | inr old ↦ inl (rw old refl)
  ]

  holding_Agrees :
      (us : List Use) (m : Written) (d : CacheableDataSource C) (s : S)
      → All IsFull us
      → Holds m d
      → Agrees (replay us m) (answers us d s)
  unfolding Holds
  holding_Agrees [] m d s full h = tt
  holding_Agrees (writes o t ∷ us) m d s full h =
      holding_Agrees us (wrote m (cache_key o) t) (write o t d s).0 (write o t d s).1 full.1
        (write-Holds m o t d s full.0 h)
  holding_Agrees (waits n ∷ us) m d s full h =
      holding_Agrees us (λ k. older n (m k)) (wait n d) s full.1 (wait-Holds m n d h)
  holding_Agrees (reads o ∷ us) m d s full h = elim (fresh-cases (m (cache_key o))) [
    | inl unknown ↦
        rw unknown
          (holding_Agrees us m (read o d s).1 (read o d s).2 full.1 (read-Holds m o d s unknown h))
    | inr (t, a, f, young, is_fresh) ↦
        let (found, kept, _) = h (cache_key o) t a f young in
        let (result, source, server) = read-found o t d s kept found in
        rw is_fresh (result, rw source (rw server (holding_Agrees us m d s full.1 h)))
  ]

  -- Whatever the cache has, the server does and the connections are: over any sequence of writes of texts
  -- that are not empty, of reads, of any keys, and of times that pass, an owner that replicates answers each
  -- read of a key that was last written at most 600 seconds before with the text that was written then.
  pub answers-replay :
      (us : List Use) (d : CacheableDataSource C) (s : S)
      → All IsFull us
      → Agrees (replay us nothing_written) (answers us d s)
  unfolding Holds
  answers-replay us d s full = holding_Agrees us nothing_written d s full (λ k t a f. cc)
