-- ===== src/Tests/Caches.antt =====
-- The cached data source at concrete inputs, over a cache that keeps its entries and one that does not.
use streamerson.Prelude.{
  ℕ, ◌+◌, leb, ◌==◌, if◌then◌else◌, arith, String, ◌≡◌, refl, true, Option, none, some, List, [],
  ◌∷◌,
}
use streamerson.Prelude.Dict
use streamerson.Prelude.Dict.{Dict, get-put, get-remove}
use streamerson.Prelude.Value.{Value, str}
use streamerson.Keys.{shard_decorator}
use streamerson.Cache.{
  Lru, ttl, CacheableDataSource, KeyOptions, increment, decrement, changed, is_exact,
}
use streamerson.Cache.Operations.{begin_count, end_count}
use streamerson.Cache.Operations.Ownership.{applied, run_changes, run_changes-overlapping}
use streamerson.Prelude.Integer.{pos}
use streamerson.Prelude.Decimal.{show_int}
use streamerson.Cache.Operations.Refinement.{
  Use, writes, reads, waits, Agrees, answers, answers-replay,
}
use streamerson.Tests.Fixtures.{server, connection}

abbrev pub entries : Lru (Dict Value)
entries = record {
  get = Dict.get;
  set = Dict.put;
  delete = Dict.remove;
  get-set = λ c k j v. get-put c k j v;
  get-delete = λ c k j. get-remove c k j;
  pass = λ n c. c;
  age = λ c k. 0;
  get-pass = λ n c k young. refl;
  age-pass = λ n c k. ground arith;
  age-set = λ c k j v. ground arith;
  age-delete = λ c k j differ. refl;
}

-- A cache whose entries expire: what was set under a key, and how long ago.
abbrev Aged : Type 0
Aged = String → Option Value × ℕ

abbrev expiring : Lru Aged
expiring = record {
  get = λ c k. if leb (c k).1 ttl then (c k).0 else none;
  set = λ c k v j. if k == j then (some v, 0) else c j;
  delete = λ c k j. if k == j then (none, 0) else c j;
  get-set = λ c k j v. ground arith;
  get-delete = λ c k j. ground arith;
  pass = λ n c j. ((c j).0, (c j).1 + n);
  age = λ c k. (c k).1;
  get-pass = λ n c k young. ground (arith, young);
  age-pass = λ n c k. ground arith;
  age-set = λ c k j v. ground arith;
  age-delete = λ c k j differ. ground (arith, differ);
}

abbrev empty : CacheableDataSource Aged
empty = record { client = connection; cached = connection; cache = λ k. (none, 0) }

abbrev holding : Dict Value → CacheableDataSource (Dict Value)
holding cache = record { client = connection; cached = connection; cache = cache }

abbrev visits : KeyOptions
visits = record { key = "visits"; shard = none }

-- The last read comes too late: nothing is said of its answer.
abbrev uses : List Use
uses =
    writes visits "3"
    ∷ writes visits "4"
    ∷ waits 600000
    ∷ reads visits
    ∷ reads (record { key = "users"; shard = none })
    ∷ waits 1
    ∷ reads visits
    ∷ []

answers-replay_example : Agrees (some "4" ∷ none ∷ none ∷ []) (answers expiring server uses empty 0)
unfolding shard_decorator
answers-replay_example =
    answers-replay expiring server uses empty 0 (refl, (refl, (tt, (tt, (tt, (tt, (tt, tt)))))))

abbrev at_41 : CacheableDataSource (Dict Value)
at_41 = holding (("visits", str (show_int (pos 41))) ∷ [])

run_changes-overlapping_example :
    (let cs = increment ∷ increment ∷ decrement ∷ [] in
      let after = run_changes entries server cs visits true at_41 0 in
      let late = begin_count entries server "visits" after in
      let early = begin_count entries server "visits" at_41 in
      (Dict.get
          (end_count entries server increment "visits" true late after 5).source.cache
          "visits"
        ≡ some (str (show_int (changed increment (applied cs (pos 41))))))
      × (is_exact (changed increment (applied cs (pos 41))) ≡ true)
      × (Dict.get
            (end_count entries server increment "visits" true early after 5).source.cache
            "visits"
          ≡ some (str (show_int (changed increment (pos 41))))))
unfolding Dict.get shard_decorator
run_changes-overlapping_example =
    run_changes-overlapping entries server increment (increment ∷ increment ∷ decrement ∷ []) at_41
      visits true 0 5 (pos 41) refl refl
