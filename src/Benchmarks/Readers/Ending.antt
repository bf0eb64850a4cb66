-- ===== src/Benchmarks/Readers/Ending.antt =====
-- The client reader ends, whatever Redis replies.
use streamerson.Prelude.{
  ℕ, zero, suc, ◌+◌, ◌≤◌, String, ◌≡◌, ◌∙◌, ap, refl, true, false, Option, some, [], ◌∷◌, length,
  or_else, arith, Bool-cases, Option-cases, inl, inr,
}
use streamerson.Prelude.Result.{Result, ok, err, Result-cases}
use streamerson.Prelude.Decimal.{show_nat}
use streamerson.Redis.{Redis, Pages}
use streamerson.Benchmarks.Readers.{
  ReaderOptions, unexpected, finally, last_entry, walk_pages, ReadMessages, take_reply, is_last,
  client_turn, client_loop, client_reader,
}

-- The end of a loop: a message that it threw, or a count that is as expected.
abbrev pub IsExpected : ReaderOptions → Result ReadMessages → Type 0
IsExpected o (ok r) = unexpected o r.message_count ≡ false
IsExpected o (err e) = Unit

finally-IsExpected :
    (o : ReaderOptions) (n count : ℕ)
    → IsExpected o (finally o count (ok (record { iterations = n; message_count = count })))
unfolding finally
finally-IsExpected o n count = elim (Bool-cases (unexpected o count)) [
  | inl h ↦ rw h tt
  | inr h ↦ rw h h
]

finally-threw :
    (o : ReaderOptions) (count : ℕ) (e : String) → IsExpected o (finally o count (err e))
unfolding finally
finally-threw o count e = elim (Bool-cases (unexpected o count)) [
  | inl h ↦ rw h tt
  | inr h ↦ rw h tt
]

walk_pages-bound :
    (pages : Pages) (count : ℕ) (cursor : String) → count ≤ (walk_pages pages count cursor).0
unfolding walk_pages
walk_pages-bound [] count cursor = omega arith
walk_pages-bound ((name, entries) ∷ pages) count cursor = elim (Option-cases (last_entry entries)) [
  | inl h ↦ rw (h, walk_pages) (omega arith)
  | inr (id, h) ↦
      rw (h, walk_pages)
        (let more = walk_pages-bound pages (count + length entries) id in omega (arith, more))
]

take_reply-bound :
    (r : Result (Option Pages)) (count : ℕ) (cursor : String)
    → count ≤ (take_reply r count cursor).0
unfolding take_reply
take_reply-bound (ok pages) count cursor = walk_pages-bound (or_else pages []) count cursor
take_reply-bound (err e) count cursor = omega arith

module _ {S : Type 0} (redis : Redis S) where
  client_turn-bound :
      (o : ReaderOptions) (stream : String) (count : ℕ) (cursor : String) (s : S)
      → count ≤ (client_turn redis o stream count cursor s).0.0
  unfolding client_turn
  client_turn-bound o stream count cursor s =
      take_reply-bound (redis.xread 1000 (some (or_else o.batch_size 1)) (stream ∷ cursor ∷ []) s).0
        count cursor

  abbrev turned : ReaderOptions → String → ℕ → String → S → (ℕ × Result String) × S
  turned = client_turn redis

  client_loop-threw :
      (fuel : ℕ) (o : ReaderOptions) (stream : String) (n count : ℕ) (cursor : String) (s : S)
      (e : String)
      → (turned o stream count cursor s).0.1 ≡ err e
      → (client_loop redis (suc fuel) o stream n count cursor s).0
        ≡ some (finally o (turned o stream count cursor s).0.0 (err e))
  unfolding client_loop
  client_loop-threw fuel o stream n count cursor s e h = rw (h, client_loop) refl

  client_loop-last :
      (fuel : ℕ) (o : ReaderOptions) (stream : String) (n count : ℕ) (cursor : String) (s : S)
      (next : String)
      → (turned o stream count cursor s).0.1 ≡ ok next
      → is_last o count (turned o stream count cursor s).0.0 ≡ true
      → (client_loop redis (suc fuel) o stream n count cursor s).0
        ≡ some (
            finally o (turned o stream count cursor s).0.0 (
              ok (record {
                iterations = suc n;
                message_count = (turned o stream count cursor s).0.0;
              })))
  unfolding client_loop
  client_loop-last fuel o stream n count cursor s next h k = rw (h, client_loop) (rw k refl)

  client_loop-more :
      (fuel : ℕ) (o : ReaderOptions) (stream : String) (n count : ℕ) (cursor : String) (s : S)
      (next : String)
      → (turned o stream count cursor s).0.1 ≡ ok next
      → is_last o count (turned o stream count cursor s).0.0 ≡ false
      → client_loop redis (suc fuel) o stream n count cursor s
        ≡ client_loop redis fuel o stream
            (suc n)
            (turned o stream count cursor s).0.0
            next
            (turned o stream count cursor s).1
  unfolding client_loop
  client_loop-more fuel o stream n count cursor s next h k = rw (h, client_loop) (rw k refl)

  -- A loop ends if it does whenever a turn is not its last.
  Ends : ℕ → ReaderOptions → String → ℕ → ℕ → String → S → Type 0
  Ends fuel o stream n count cursor s =
      (r : Result ReadMessages) × ((client_loop redis (suc fuel) o stream n count cursor s).0
        ≡ some r)
      × IsExpected o r

  turn-Ends :
      (fuel : ℕ) (o : ReaderOptions) (stream : String) (n count : ℕ) (cursor : String) (s : S)
      → ((next : String)
          → (turned o stream count cursor s).0.1 ≡ ok next
          → is_last o count (turned o stream count cursor s).0.0 ≡ false
          → Ends fuel o stream n count cursor s)
      → Ends fuel o stream n count cursor s
  unfolding Ends
  turn-Ends fuel o stream n count cursor s more =
      elim (Result-cases (turned o stream count cursor s).0.1) [
        | inr (e, h) ↦
            (_, client_loop-threw fuel o stream n count cursor s e h, finally-threw o _ e)
        | inl (next, h) ↦ elim (Bool-cases (is_last o count (turned o stream count cursor s).0.0)) [
          | inl k ↦ (
            _,
            client_loop-last fuel o stream n count cursor s next h k,
            finally-IsExpected o (suc n) _,
          )
          | inr k ↦ more next h k
        ]
      ]

  client_loop-Ends :
      (fuel : ℕ) (o : ReaderOptions) (stream : String) (n count : ℕ) (cursor : String) (s : S)
      → o.stop_at ≤ count + fuel
      → Ends fuel o stream n count cursor s
  unfolding Ends
  client_loop-Ends zero o stream n count cursor s enough =
      turn-Ends zero o stream n count cursor s
        (λ next h k. absurd (ground (arith, k, enough, client_turn-bound o stream count cursor s)))
  client_loop-Ends (suc fuel) o stream n count cursor s enough =
      turn-Ends (suc fuel) o stream n count cursor s (λ next h k.
        let (r, same, expected) =
          client_loop-Ends fuel o stream (suc n) (turned o stream count cursor s).0.0 next
            (turned o stream count cursor s).1
            (ground (arith, k, enough, client_turn-bound o stream count cursor s)) in
        (
          r,
          ap (λ x. x.0) (client_loop-more (suc fuel) o stream n count cursor s next h k) ∙ same,
          expected,
        ))

  -- Whatever Redis replies, a new client reader ends, with at most one turn of its loop more than the
  -- messages that it is to stop at; and if it does not throw, the number of messages that it read is one
  -- that its options expect.
  pub client_reader-ends :
      (o : ReaderOptions) (stream : String) (s : S)
      → (r : Result ReadMessages) × ((client_reader redis (suc o.stop_at) o stream s).0 ≡ some r)
        × IsExpected o r
  unfolding client_reader Ends
  client_reader-ends o stream s =
      client_loop-Ends o.stop_at o stream 0 0 (show_nat o.start_at) s (omega arith)
