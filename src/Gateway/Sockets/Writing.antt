-- ===== src/Gateway/Sockets/Writing.antt =====
-- What a turn of the outgoing stream of a WebSocket route does.
use streamerson.Prelude.{
  String, ◌≡◌, refl, sym, true, false, Option, List, [], ◌∷◌, ◌++◌, append_assoc, arith,
  if◌then◌else◌, Bool-cases, inl, inr, ◌⊎◌,
}
use streamerson.Prelude.Value.{Value}
use streamerson.Keys.{Topic}
use streamerson.Message.{Json, MappedStreamEvent}
use streamerson.Redis.{Redis}
use streamerson.Source.{StreamingDataSource, WriteOutcome, called_back, dropped, rejected}
use streamerson.Gateway.Sockets.{App, SocketGateway, on_drain, on_progress}
use streamerson.Gateway.Sockets.Queue.{
  IsOrderly, write_one, write_each-append, moved-IsOrderly, drained-IsOrderly,
}

module _ {A S : Type 0} (app : App A) (redis : Redis S) (json : Json)
    (token_text : Value → Option String) (d : StreamingDataSource) (t : Topic) (type : String) where
  abbrev Orderly : List MappedStreamEvent → S → SocketGateway A S → Type 0
  Orderly = IsOrderly app redis json token_text d t type

  abbrev pub next : SocketGateway A S → SocketGateway A S
  next = on_progress app redis json token_text d t type

  -- What the write of a chunk does to the gateway.
  next-blocked :
      (g : SocketGateway A S) (e : MappedStreamEvent) (rest : List MappedStreamEvent)
      → g.queue ≡ e ∷ rest
      → g.stuck ≡ false
      → ((write_one app redis json token_text d t type e g.server).0 ≡ called_back → ⊥)
      → next g ≡ record g {
        queue = rest;
        stuck = true;
        server = (write_one app redis json token_text d t type e g.server).1;
      }
  unfolding on_progress
  next-blocked g e rest q k h = ground arith

  pub next-more :
      (g : SocketGateway A S) (e f : MappedStreamEvent) (rest : List MappedStreamEvent)
      → g.queue ≡ e ∷ f ∷ rest
      → g.stuck ≡ false
      → (write_one app redis json token_text d t type e g.server).0 ≡ called_back
      → next g ≡ record g {
        queue = f ∷ rest;
        server = (write_one app redis json token_text d t type e g.server).1;
      }
  unfolding on_progress
  next-more g e f rest q k h = ground arith

  pub next-last :
      (g : SocketGateway A S) (e : MappedStreamEvent)
      → g.queue ≡ e ∷ []
      → g.stuck ≡ false
      → (write_one app redis json token_text d t type e g.server).0 ≡ called_back
      → next g ≡ (
          let w = record g {
            queue = [];
            server = (write_one app redis json token_text d t type e g.server).1;
          } in
          if g.drained then on_drain app redis json token_text d t type w else w)
  unfolding on_progress
  next-last g e q k h = ground arith

  outcome-cases : (o : WriteOutcome) → (o ≡ called_back) ⊎ (o ≡ called_back → ⊥)
  outcome-cases called_back = inl refl
  outcome-cases dropped = inr (λ h. ground (arith, h))
  outcome-cases (rejected e) = inr (λ h. ground (arith, h))

  blocked-IsOrderly :
      (came : List MappedStreamEvent) (s : S) (g : SocketGateway A S) (e : MappedStreamEvent)
      (rest : List MappedStreamEvent)
      → g.queue ≡ e ∷ rest
      → g.stuck ≡ false
      → ((write_one app redis json token_text d t type e g.server).0 ≡ called_back → ⊥)
      → Orderly came s g
      → Orderly came s (next g)
  blocked-IsOrderly came s g e rest q k h o = rw (next-blocked g e rest q k h) (
      moved-IsOrderly app redis json token_text d t type came s g e rest true q
        (λ _ b. ground (arith, b)) o)

  last-IsOrderly :
      (came : List MappedStreamEvent) (s : S) (g : SocketGateway A S) (e : MappedStreamEvent)
      → g.queue ≡ e ∷ []
      → g.stuck ≡ false
      → (write_one app redis json token_text d t type e g.server).0 ≡ called_back
      → Orderly came s g
      → Orderly came s (next g)
  last-IsOrderly came s g e q k h o = elim (Bool-cases g.drained) [
    | inl pending ↦
        let all : came ≡ (o.done ++ e ∷ []) ++ g.waiting =
          rw o.accounted (rw q (simp append_assoc)) in
        rw (next-last g e q k h) (
          rw pending (
            rw all (
              drained-IsOrderly app redis json token_text d t type (o.done ++ e ∷ []) s _ refl
                (rw o.written
                  (sym (write_each-append app redis json token_text d t type o.done e s)))
                o.silent)))
    | inr free ↦
        let moved =
          moved-IsOrderly app redis json token_text d t type came s g e [] g.stuck q
            (λ b _. ground (arith, b, free)) o in
        rw (next-last g e q k h) (rw free (rw free at moved))
  ]

  more-IsOrderly :
      (came : List MappedStreamEvent) (s : S) (g : SocketGateway A S) (e f : MappedStreamEvent)
      (rest : List MappedStreamEvent)
      → g.queue ≡ e ∷ f ∷ rest
      → g.stuck ≡ false
      → (write_one app redis json token_text d t type e g.server).0 ≡ called_back
      → Orderly came s g
      → Orderly came s (next g)
  more-IsOrderly came s g e f rest q k h o = rw (next-more g e f rest q k h) (
      moved-IsOrderly app redis json token_text d t type came s g e (f ∷ rest) g.stuck q
        (λ _ _. ground arith) o)

  pub still-next : (g : SocketGateway A S) → g.stuck ≡ true → next g ≡ g
  unfolding on_progress
  still-next g k = ground arith

  head-IsOrderly :
      (came : List MappedStreamEvent) (s : S) (g : SocketGateway A S) (e : MappedStreamEvent)
      (rest : List MappedStreamEvent)
      → g.queue ≡ e ∷ rest
      → g.stuck ≡ false
      → Orderly came s g
      → Orderly came s (next g)
  head-IsOrderly came s g e [] q k o =
      elim (outcome-cases (write_one app redis json token_text d t type e g.server).0) [
        | inl h ↦ last-IsOrderly came s g e q k h o
        | inr h ↦ blocked-IsOrderly came s g e [] q k h o
      ]
  head-IsOrderly came s g e (f ∷ rest) q k o =
      elim (outcome-cases (write_one app redis json token_text d t type e g.server).0) [
        | inl h ↦ more-IsOrderly came s g e f rest q k h o
        | inr h ↦ blocked-IsOrderly came s g e (f ∷ rest) q k h o
      ]

  pub queue-cases :
      (es : List MappedStreamEvent)
      → (es ≡ []) ⊎ ((e : MappedStreamEvent) × (rest : List MappedStreamEvent) × (es ≡ e ∷ rest))
  queue-cases [] = inl refl
  queue-cases (e ∷ rest) = inr (e, rest, refl)

  pub empty-next : (g : SocketGateway A S) → g.queue ≡ [] → next g ≡ g
  unfolding on_progress
  empty-next g q = rw q refl

  pub next-IsOrderly :
      (came : List MappedStreamEvent) (s : S) (g : SocketGateway A S)
      → Orderly came s g
      → Orderly came s (next g)
  next-IsOrderly came s g o = elim (Bool-cases g.stuck) [
    | inl k ↦ rw (still-next g k) o
    | inr k ↦ elim (queue-cases g.queue) [
      | inl q ↦ rw (empty-next g q) o
      | inr (e, rest, q) ↦ head-IsOrderly came s g e rest q k o
    ]
  ]
