-- ===== src/Cache/Operations/Ownership.antt =====
-- What reads and writes of the cached data source promise each other, for each kind of state:
-- packages/state-machine/src/datasources/cacheable.ts.
use streamerson.Prelude.{
  zero, suc, arith, String, ◌≡◌, refl, Bool, true, false, Option, none, some, List, [], ◌∷◌,
  eq_refl, truthy,
}
use streamerson.Prelude.Result.{Result, ok, err}
use streamerson.Prelude.Integer.{ℤ, pos, negsuc}
use streamerson.Prelude.Decimal.{show_int, parse_int-show_int}
use streamerson.Prelude.Value.{Value, null, str, truthy_value}
use streamerson.Redis.{Redis}
use streamerson.Cache.{
  Lru, CacheableDataSource, StateConfiguration, KeyOptions, cache_key, Change, increment, decrement,
  is_exact, ask_client, changed, cached_number, number_text, map_change, invalidate_cache, hit,
  begin_read, caching_in_progress, cacheable, channel_of, end_get,
}
use streamerson.Cache.Operations.{
  incr_or_decr, count, begin_count, end_count, count_owned, get, get_after, get_replied, set,
  set_or_delete, set_value, set_owned, set_rented, on_channel,
}

abbrev pub owned : Bool → StateConfiguration
owned replicated = record { owner = true; rent = false; replicated = replicated }

abbrev pub rented : StateConfiguration
rented = record { owner = false; rent = true; replicated = false }

-- The changes made one after the other.
abbrev pub applied : List Change → ℤ → ℤ
applied [] z = z
applied (c ∷ cs) z = applied cs (changed c z)

changed-exact : (c : Change) (z : ℤ) → is_exact z ≡ true → is_exact (changed c z) ≡ true
unfolding changed
changed-exact increment (pos n) h = ground (arith, h)
changed-exact increment (negsuc zero) h = refl
changed-exact increment (negsuc (suc n)) h = ground (arith, h)
changed-exact decrement (pos zero) h = refl
changed-exact decrement (pos (suc n)) h = ground (arith, h)
changed-exact decrement (negsuc n) h = ground (arith, h)

applied-exact : (cs : List Change) (z : ℤ) → is_exact z ≡ true → is_exact (applied cs z) ≡ true
applied-exact [] z h = h
applied-exact (c ∷ cs) z h = applied-exact cs (changed c z) (changed-exact c z h)

module _ {C : Type 0} (lru : Lru C) where
  pub get-set_same : (c : C) (k : String) (v : Value) → lru.get (lru.set c k v) k ≡ some v
  get-set_same c k v = rw (lru.get-set c k k v) (rw (eq_refl k) refl)

  -- While a read of a cacheable state waits for Redis, any other read of that key is answered with
  -- the text "caching in progress".
  pub begin_read-overlapping :
      (d : CacheableDataSource C) (o : KeyOptions) (f g : StateConfiguration)
      → cacheable f ≡ true
      → lru.get d.cache (cache_key o) ≡ none
      → cacheable g ≡ true
      → (begin_read lru (begin_read lru d o f).1 o g).0 ≡ hit caching_in_progress
  unfolding begin_read
  begin_read-overlapping d o f g hf hn hg =
      rw hf (rw hn (rw hg (rw (get-set_same d.cache (cache_key o) caching_in_progress) refl)))

  module _ {S : Type 0} (redis : Redis S) where
    -- What an owner with replication set, as a text that is not empty, it reads back: from the cache,
    -- whatever became of the command to Redis.
    pub get-set-replicated :
        (d : CacheableDataSource C) (o : KeyOptions) (t : String) (s s' : S)
        → truthy t ≡ true
        → (get lru redis o (owned true) (set lru redis o (str t) (owned true) d s).source s').result
          ≡ ok (str t)
    unfolding get get_after set set_or_delete set_value set_owned begin_read
    get-set-replicated d o t s s' h = rw (get-set_same d.cache (cache_key o) (str t)) (rw h refl)

    get_replied-cache :
        (d e : CacheableDataSource C) (o : KeyOptions) (reply : Result (Option String)) (s : S)
        → (get_replied lru redis o (owned false) d reply s).result
          ≡ (get_replied lru redis o (owned false) e reply s).result
    unfolding get_replied end_get
    get_replied-cache d e o (ok v) s = refl
    get_replied-cache d e o (err x) s = refl

    -- A read that goes to Redis answers the same whatever is cached.
    ask-cache :
        (d : CacheableDataSource C) (c : C) (o : KeyOptions) (s : S)
        → (get_after lru redis o (owned false) (ask_client, record d { cache = c }) s).result
          ≡ (get_after lru redis o (owned false) (ask_client, d) s).result
    unfolding get_after channel_of
    ask-cache d c o s =
        let (reply, s') = on_channel d.client (redis.get (cache_key o)) s in
        get_replied-cache (record d { cache = c }) d o reply s'

    -- What an owner without replication sets, its own reads never see: a read of such a state asks
    -- Redis, where the value was not written, and answers as it would have before.
    pub get-set-not_replicated :
        (d : CacheableDataSource C) (o : KeyOptions) (v : Value) (s s' : S)
        → (get lru redis o (owned false) (set lru redis o v (owned false) d s).source s').result
          ≡ (get lru redis o (owned false) d s').result
    unfolding get set set_or_delete set_value set_owned begin_read
    get-set-not_replicated d o null s s' = refl
    get-set-not_replicated d o v s s' = rw (ask-cache d (lru.set d.cache (cache_key o) v) o s') refl

    -- A write of a state that is rented does not drop the entry of the cache: while it is there, a read
    -- answers the value of before the write.
    pub get-set-rented :
        (d : CacheableDataSource C) (o : KeyOptions) (old : Value) (t : String) (s s' : S)
        → lru.get d.cache (cache_key o) ≡ some old
        → truthy_value old ≡ true
        → (get lru redis o rented (set lru redis o (str t) rented d s).source s').result ≡ ok old
    unfolding get get_after set set_or_delete set_value set_rented begin_read invalidate_cache
    get-set-rented d o old t s s' h ht = rw h (rw ht refl)

    abbrev pub run_changes :
        List Change → KeyOptions → Bool → CacheableDataSource C → S → CacheableDataSource C
    run_changes [] o r d s = d
    run_changes (c ∷ cs) o r d s =
        let result = incr_or_decr lru redis c o (owned r) d s in
        run_changes cs o r result.source result.server

    count_owned-cache :
        (c : Change) (key : String) (r : Bool) (d : CacheableDataSource C) (s : S) (z : ℤ)
        → lru.get d.cache key ≡ some (str (show_int z))
        → lru.get (count_owned lru redis c key r d s).source.cache key
          ≡ some (str (show_int (changed c z)))
    unfolding count_owned begin_count end_count cached_number map_change number_text
    count_owned-cache c key true d s z h =
        rw h (rw (parse_int-show_int z) (get-set_same d.cache key (str (show_int (changed c z)))))
    count_owned-cache c key false d s z h =
        rw h (rw (parse_int-show_int z) (get-set_same d.cache key (str (show_int (changed c z)))))

    -- An owner counts in its cache: after any sequence of increments and decrements of a key that stood
    -- at a number, each made when the one before it is done and within the time to live, the cache has the
    -- number changed by all of them, replicated or not, and whatever Redis answers.
    run_changes-counts :
        (cs : List Change) (d : CacheableDataSource C) (o : KeyOptions) (r : Bool) (s : S) (z : ℤ)
        → lru.get d.cache (cache_key o) ≡ some (str (show_int z))
        → lru.get (run_changes cs o r d s).cache (cache_key o)
          ≡ some (str (show_int (applied cs z)))
    unfolding incr_or_decr count count_owned
    run_changes-counts [] d o r s z h = h
    run_changes-counts (c ∷ cs) d o r s z h =
        run_changes-counts cs (count_owned lru redis c (cache_key o) r d s).source o r
          (count_owned lru redis c (cache_key o) r d s).server (changed c z)
          (count_owned-cache c (cache_key o) r d s z h)

    end_count-cache :
        (c : Change) (key : String) (r : Bool) (d : CacheableDataSource C) (s : S) (z : ℤ)
        → lru.get (end_count lru redis c key r (some z) d s).source.cache key
          ≡ some (str (show_int (changed c z)))
    unfolding end_count map_change number_text
    end_count-cache c key true d s z = get-set_same _ key (str (show_int (changed c z)))
    end_count-cache c key false d s z = get-set_same _ key (str (show_int (changed c z)))

    begin_count-number :
        (key : String) (d : CacheableDataSource C) (z : ℤ)
        → lru.get d.cache key ≡ some (str (show_int z))
        → begin_count lru redis key d ≡ some z
    unfolding begin_count cached_number
    begin_count-number key d z h = rw h (parse_int-show_int z)

    -- An owner counts in its cache, which stands at a whole number of at most 2^53 in size, and no entry
    -- expires. A change that begins after any sequence of increments and decrements of its key is done leaves
    -- the number changed by all of them, itself last, and still of at most 2^53 in size; but one that
    -- begins before the sequence and ends after it leaves the number changed by itself alone, and the
    -- others are lost. Both hold with replication or without, and whatever Redis answers.
    pub run_changes-overlapping :
        (c : Change) (cs : List Change) (d : CacheableDataSource C) (o : KeyOptions) (r : Bool)
        (s s' : S) (z : ℤ)
        → lru.get d.cache (cache_key o) ≡ some (str (show_int z))
        → is_exact z ≡ true
        → (let key = cache_key o in
            let after = run_changes cs o r d s in
            let in_turn = end_count lru redis c key r (begin_count lru redis key after) after s' in
            let overlapping = end_count lru redis c key r (begin_count lru redis key d) after s' in
            (lru.get in_turn.source.cache key ≡ some (str (show_int (changed c (applied cs z)))))
            × (is_exact (changed c (applied cs z)) ≡ true)
            × (lru.get overlapping.source.cache key ≡ some (str (show_int (changed c z)))))
    run_changes-overlapping c cs d o r s s' z h exact =
        let after = run_changes cs o r d s in
        let counted = run_changes-counts cs d o r s z h in
        (
          rw (begin_count-number (cache_key o) after (applied cs z) counted)
              (end_count-cache c (cache_key o) r after s' (applied cs z)),
          changed-exact c (applied cs z) (applied-exact cs z exact),
          rw (begin_count-number (cache_key o) d z h)
              (end_count-cache c (cache_key o) r after s' z),
        )
