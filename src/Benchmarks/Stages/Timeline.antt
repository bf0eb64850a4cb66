-- ===== src/Benchmarks/Stages/Timeline.antt =====
-- The run of a benchmark's stages as a relation, and what `withReport` makes of it.
use streamerson.Prelude.{
  ℕ, String, ◌≡◌, refl, ap, ◌∙◌, none, some, List, [], ◌∷◌, ◌++◌, append_assoc, ◌⊎◌, inl, inr,
  if◌then◌else◌,
}
use streamerson.Prelude.Result.{Result, ok, err, Result-cases}
use streamerson.Prelude.Integer.{sub_ℕ}
use streamerson.Prelude.Value.{Value, undefined}
use streamerson.Message.{Json}
use streamerson.Benchmarks.Stages.{
  Stage, StepEvent, start, finished, finalized, event, Machine, BenchmarkingContext, threw,
  after_stage, conclude, ended_by, opening, iterate_stages, iterate_timed_events, report_body,
  build_report, with_report,
}

module _ {S : Type 0} (machine : Machine S) (total : ℕ) where
  -- The stages run from one world to another, none throws, and these are their events. A stage is
  -- timed by the clock right before and right after it.
  pub data Timeline : List (Stage S) → S → List StepEvent → S → Type 0 where
    ended :
        {s : S}
        → Timeline [] s
            (event "timing" finalized (some (sub_ℕ (machine.now s).0 total)) undefined ∷ [])
            (machine.now s).1
    staged :
        {stages : List (Stage S)} {s s₂ s' : S} {l : List StepEvent} {v : Value} (stage : Stage S)
        → stage.fn (machine.now s).1 ≡ (ok v, s₂)
        → Timeline stages (machine.now s₂).1 l s'
        → Timeline
            (stage ∷ stages)
            s
            (event stage.name start none undefined
              ∷ event stage.name finished (some (sub_ℕ (machine.now s₂).0 (machine.now s).0)) v
              ∷ l)
            s'

  -- The stages run until one throws, and leave the world as it is then.
  pub data Fails : List (Stage S) → S → String → S → Type 0 where
    here :
        {stages : List (Stage S)} {s s' : S} {e : String} (stage : Stage S)
        → stage.fn (machine.now s).1 ≡ (err e, s')
        → Fails (stage ∷ stages) s e s'
    later :
        {stages : List (Stage S)} {s s₂ s' : S} {e : String} {v : Value} (stage : Stage S)
        → stage.fn (machine.now s).1 ≡ (ok v, s₂)
        → Fails stages (machine.now s₂).1 e s'
        → Fails (stage ∷ stages) s e s'

  run-ends :
      (stages : List (Stage S)) (s : S)
      → ((l : List StepEvent) × (s' : S) × Timeline stages s l s')
        ⊎ ((e : String) × (s' : S) × Fails stages s e s')
  run-ends [] s = inl (_, _, ended)
  run-ends (stage ∷ stages) s = elim (Result-cases (stage.fn (machine.now s).1).0) [
    | inr (e, h) ↦ inr (e, _, here stage (λ i. (h i, (stage.fn (machine.now s).1).1)))
    | inl (v, h) ↦
        let first : stage.fn (machine.now s).1 ≡ (ok v, (stage.fn (machine.now s).1).1) =
          λ i. (h i, (stage.fn (machine.now s).1).1) in
        elim (run-ends stages (machine.now (stage.fn (machine.now s).1).1).1) [
          | inl (l, s', r) ↦ inl (_, s', staged stage first r)
          | inr (e, s', r) ↦ inr (e, s', later stage first r)
        ]
  ]

module _ (json : Json) {S : Type 0} (machine : Machine S) (ctx : BenchmarkingContext S) where
  abbrev loop : ℕ → List (Stage S) → List StepEvent → S → Result (Unit {0}) × List StepEvent × S
  loop = iterate_stages machine (report_body json machine ctx)

  -- How the data source leaves the world at the end.
  abbrev pub shut_down : S → S
  shut_down s = if ctx.connect then (ctx.shut s).1 else s

  abbrev started : List StepEvent → Stage S → List StepEvent
  started before stage = before ++ event stage.name start none undefined ∷ []

  abbrev ran : List StepEvent → Stage S → S → S → Value → List StepEvent
  ran before stage s s₂ v =
      (before ++ event stage.name start none undefined ∷ [])
      ++ event stage.name finished (some (sub_ℕ (machine.now s₂).0 (machine.now s).0)) v ∷ []

  ran-append :
      (before : List StepEvent) (stage : Stage S) (s s₂ : S) (v : Value) (l : List StepEvent)
      → ran before stage s s₂ v ++ l
        ≡ before
          ++ (event stage.name start none undefined
              ∷ event stage.name finished (some (sub_ℕ (machine.now s₂).0 (machine.now s).0)) v
              ∷ l)
  ran-append before stage s s₂ v l = simp append_assoc

  loop-ok :
      (total : ℕ) (before : List StepEvent) (stage : Stage S) (stages : List (Stage S)) (s s₂ : S)
      (v : Value)
      → stage.fn (machine.now s).1 ≡ (ok v, s₂)
      → loop total (stage ∷ stages) before s
        ≡ loop total stages (ran before stage s s₂ v) (machine.now s₂).1
  unfolding iterate_stages after_stage report_body
  loop-ok total before stage stages s s₂ v h =
      ap
        (after_stage machine (report_body json machine ctx) (loop total stages) stage.name
          (machine.now s).0 (started before stage))
        h

  loop-err :
      (total : ℕ) (before : List StepEvent) (stage : Stage S) (stages : List (Stage S)) (s s₂ : S)
      (e : String)
      → stage.fn (machine.now s).1 ≡ (err e, s₂)
      → loop total (stage ∷ stages) before s ≡ (err e, started before stage, s₂)
  unfolding iterate_stages after_stage report_body
  loop-err total before stage stages s s₂ e h =
      ap
        (after_stage machine (report_body json machine ctx) (loop total stages) stage.name
          (machine.now s).0 (started before stage))
        h

  loop-Timeline :
      (total : ℕ) (before : List StepEvent) {stages : List (Stage S)} {l : List StepEvent}
      {s s' : S}
      → Timeline machine total stages s l s'
      → loop total stages before s ≡ (ok tt, before ++ l, shut_down s')
  unfolding iterate_stages after_stage report_body
  loop-Timeline total before ended = refl
  loop-Timeline total before
        (staged {stages = stages} {s = s} {s₂ = s₂} {s' = s'} {l = l} {v = v} stage h r) =
      loop-ok total before stage stages s s₂ v h
      ∙ loop-Timeline total (ran before stage s s₂ v) r
      ∙ ap (λ (x : List StepEvent). (ok tt, x, shut_down s')) (ran-append before stage s s₂ v l)

  loop-Fails :
      (total : ℕ) (before : List StepEvent) {stages : List (Stage S)} {s s' : S} {e : String}
      → Fails machine total stages s e s'
      → (l : List StepEvent) × (loop total stages before s ≡ (err e, l, s'))
  unfolding report_body
  loop-Fails total before (here {stages = stages} {s = s} {s' = s'} {e = e} stage h) =
      (_, loop-err total before stage stages s s' e h)
  loop-Fails total before (later {stages = stages} {s = s} {s₂ = s₂} {v = v} stage h r) =
      let (l, same) = loop-Fails total (ran before stage s s₂ v) r in
      (l, loop-ok total before stage stages s s₂ v h ∙ same)

  pub with_report-Timeline :
      (trim : String → String) {stages : List (Stage S)} {s s' : S} {l : List StepEvent}
      → Timeline machine (machine.now s).0 stages (machine.now s).1 l s'
      → with_report json machine ctx trim stages s
        ≡ ended_by json machine ctx
            (build_report json machine ctx trim (opening ∷ l) (shut_down s'))
  unfolding with_report iterate_timed_events report_body conclude
  with_report-Timeline trim r =
      ap (conclude json machine ctx trim) (loop-Timeline _ (opening ∷ []) r)

  -- If no stage throws, then the report is built of the events of all stages, each timed by the
  -- clock right before and after it, between the first event and the last; that is after the data
  -- source was shut down, if it is connected, and whatever came of that. If a stage throws, nothing
  -- runs after it: no report is built, and the data source is not shut down.
  pub with_report-ends :
      (trim : String → String) (stages : List (Stage S)) (s : S)
      → ((l : List StepEvent) × (s' : S) × Timeline machine
            (machine.now s).0
            stages
            (machine.now s).1
            l
            s'
          × (with_report json machine ctx trim stages s
              ≡ ended_by json machine ctx
                  (build_report json machine ctx trim (opening ∷ l) (shut_down s'))))
        ⊎ ((e : String) × (s' : S) × Fails machine (machine.now s).0 stages (machine.now s).1 e s'
            × (with_report json machine ctx trim stages s ≡ (threw e, s')))
  unfolding with_report iterate_timed_events report_body conclude
  with_report-ends trim stages s =
      elim (run-ends machine (machine.now s).0 stages (machine.now s).1) [
        | inl (l, s', r) ↦ inl (l, s', r, with_report-Timeline trim r)
        | inr (e, s', r) ↦
            let (l, same) = loop-Fails _ (opening ∷ []) r in
            inr (e, s', r, ap (conclude json machine ctx trim) same)
      ]
