-- ===== src/Gateway/Sockets/Subscriptions.antt =====
-- Which sockets of a WebSocket route are subscribed to which tokens.
use streamerson.Prelude.{
  ℕ, String, ◌≡◌, ◌∙◌, refl, ap, Bool, true, false, ◌&&◌, ◌||◌, ◌==◌, Option, none, some, List, [],
  ◌∷◌, nat_eq, arith, get_elem?, Bool-cases, Option-cases, inl, inr, eq_iff,
}
use streamerson.Prelude.Result.{Result, ok, err, Result-cases}
use streamerson.Prelude.Value.{Value, obj}
use streamerson.Keys.{Topic}
use streamerson.Message.{Json, MappedStreamEvent}
use streamerson.Redis.{Redis}
use streamerson.Source.{StreamingDataSource}
use streamerson.Gateway.Sockets.{
  App, SocketGateway, Step, message, progress, callback_done, data_event, subscribe_sender, offer,
  offer_all, enqueue, call_back, on_callback, remove_at, on_drain, on_progress, on_data, step, run,
  deserialize_stream_event,
}
use streamerson.Gateway.Sockets.Ordering.{
  on_message-read, on_message-unread, read, received, joined,
}

abbrev pub same_token : Option String → Option String → Bool
same_token none none = true
same_token (some x) (some y) = x == y
same_token _ _ = false

both_same :
    (sender ws : ℕ) (token asked : Option String)
    → (nat_eq sender ws && same_token token asked) ≡ true
    → (sender ≡ ws) × (token ≡ asked)
both_same sender ws none none h = ground (arith, h)
both_same sender ws (some x) (some y) h = ground (arith, h, eq_iff x y)
both_same sender ws none (some y) h = ground (arith, h)
both_same sender ws (some x) none h = ground (arith, h)

-- What uWebSockets documents: to subscribe makes a socket a subscriber of a topic, and changes nothing
-- for other sockets and topics; to publish changes no subscription.
pub record IsPubSub {A : Type 0} (app : App A) : Type 0 where
  pub is_subscribed-subscribe :
      (ws other : ℕ) (token asked : Option String) (a : A)
      → app.is_subscribed other asked (app.subscribe ws token a)
        ≡ ((nat_eq ws other && same_token token asked) || app.is_subscribed other asked a)
  pub is_subscribed-publish :
      (ws : ℕ) (token asked : Option String) (text : String) (a : A)
      → app.is_subscribed ws asked (app.publish token text a).1 ≡ app.is_subscribed ws asked a

module _ {A S : Type 0} (app : App A) (redis : Redis S) (json : Json)
    (token_text : Value → Option String) (d : StreamingDataSource) (t : Topic) (type : String) where
  -- Whether a message names a token, if it could be read.
  abbrev names : Option String → Result MappedStreamEvent → Bool
  names token (ok e) = same_token e.message_source_id token
  names token (err x) = false

  -- Whether a socket sent a message with a token.
  abbrev pub has_sent : List Step → ℕ → Option String → Bool
  has_sent [] ws token = false
  has_sent (message sender text id ∷ xs) ws token =
      (nat_eq sender ws && names token (read app redis json token_text d t type text id))
      || has_sent xs ws token
  has_sent (progress ∷ xs) ws token = has_sent xs ws token
  has_sent (callback_done i returns ∷ xs) ws token = has_sent xs ws token
  has_sent (data_event e ∷ xs) ws token = has_sent xs ws token

  abbrev asks : SocketGateway A S → ℕ → Option String → Bool
  asks g ws token = app.is_subscribed ws token g.app

  offer_all-app :
      (g : SocketGateway A S) (es : List MappedStreamEvent)
      → (offer_all app redis json token_text d t type g es).app ≡ g.app
  unfolding offer_all offer
  offer_all-app g [] = refl
  offer_all-app g (e ∷ es) = offer_all-app (offer app redis json token_text d t type g e) es

  enqueue-app :
      (g : SocketGateway A S) (e : MappedStreamEvent)
      → (enqueue app redis json token_text d t type g e).app ≡ g.app
  unfolding enqueue offer
  enqueue-app g e = ground arith

  call_back-app :
      (g : SocketGateway A S) (e : MappedStreamEvent)
      → (call_back app redis json token_text d t type g e).app ≡ g.app
  unfolding call_back
  call_back-app g e = ground (arith, enqueue-app g e)

  on_callback-app :
      (g : SocketGateway A S) (i : ℕ) (returns : Bool)
      → (on_callback app redis json token_text d t type g i returns).app ≡ g.app
  unfolding on_callback
  on_callback-app g i returns = elim (Option-cases (get_elem? g.called i)) [
    | inl none_called ↦ rw (none_called, on_callback) refl
    | inr (e, found) ↦
        rw (found, on_callback)
          (elim (Bool-cases returns) [
            | inl done ↦ rw done (enqueue-app (record g { called = remove_at g.called i }) e)
            | inr thrown ↦ rw thrown refl
          ])
  ]

  on_progress-app :
      (g : SocketGateway A S) → (on_progress app redis json token_text d t type g).app ≡ g.app
  unfolding on_progress on_drain
  on_progress-app g = grind (arith, offer_all-app)

  module _ (h : IsPubSub app) where
    already :
        (sender ws : ℕ) (token asked : Option String) (a : A)
        → app.is_subscribed sender token a ≡ true
        → app.is_subscribed ws asked a
          ≡ ((nat_eq sender ws && same_token token asked) || app.is_subscribed ws asked a)
    already sender ws token asked a is_in =
        elim (Bool-cases (nat_eq sender ws && same_token token asked)) [
          | inl both ↦
              let (one, other) = both_same sender ws token asked both in
              rw both (rw one at (rw other at is_in))
          | inr differ ↦ rw differ refl
        ]

    subscribe_sender-asks :
        (sender ws : ℕ) (token asked : Option String) (a : A)
        → app.is_subscribed ws asked
            (subscribe_sender app redis json token_text d t type sender token a)
          ≡ ((nat_eq sender ws && same_token token asked) || app.is_subscribed ws asked a)
    unfolding subscribe_sender
    subscribe_sender-asks sender ws token asked a =
        elim (Bool-cases (app.is_subscribed sender token a)) [
          | inl is_in ↦ rw is_in (already sender ws token asked a is_in)
          | inr out ↦ rw out (h.is_subscribed-subscribe sender ws token asked a)
        ]

    on_data-asks :
        (g : SocketGateway A S) (e : MappedStreamEvent) (ws : ℕ) (token : Option String)
        → asks (on_data app redis json token_text d t type g e) ws token ≡ asks g ws token
    unfolding on_data
    on_data-asks g e ws token = ground (
      arith,
      h.is_subscribed-publish ws e.message_source_id token
          (json.stringify (obj none (deserialize_stream_event e).0)) g.app,
    )

    received-asks :
        (g : SocketGateway A S) (sender ws : ℕ) (text id : String) (token : Option String)
        → asks (received app redis json token_text d t type g sender text id) ws token ≡ (
            (nat_eq sender ws && names token (read app redis json token_text d t type text id))
            || asks g ws token)
    received-asks g sender ws text id token =
        elim (Result-cases (read app redis json token_text d t type text id)) [
          | inl (e, q) ↦
              ap (λ b. asks b ws token)
                (on_message-read app redis json token_text d t type g sender text id e q)
              ∙ ap (app.is_subscribed ws token)
                  (call_back-app (joined app redis json token_text d t type g sender e) e)
              ∙ (rw q (subscribe_sender-asks sender ws e.message_source_id token g.app))
          | inr (x, q) ↦
              ap (λ b. asks b ws token)
                (on_message-unread app redis json token_text d t type g sender text id x q)
              ∙ rw q (ground arith)
        ]

    -- Over an uWebSockets that keeps to its documentation: after any steps, a socket is subscribed to a
    -- token exactly if it was before, or sent a message with the token that could be read. Neither what
    -- is written nor what is published ends a subscription.
    pub run-subscribed :
        (g : SocketGateway A S) (xs : List Step) (ws : ℕ) (token : Option String)
        → asks (run app redis json token_text d t type g xs) ws token
          ≡ (has_sent xs ws token || asks g ws token)
    unfolding run step
    run-subscribed g [] ws token = refl
    run-subscribed g (message sender text id ∷ xs) ws token =
        run-subscribed (received app redis json token_text d t type g sender text id) xs ws token
        ∙ ground (arith, received-asks g sender ws text id token)
    run-subscribed g (progress ∷ xs) ws token =
        run-subscribed (on_progress app redis json token_text d t type g) xs ws token
        ∙ ap (λ a. has_sent xs ws token || app.is_subscribed ws token a) (on_progress-app g)
    run-subscribed g (callback_done i returns ∷ xs) ws token =
        run-subscribed (on_callback app redis json token_text d t type g i returns) xs ws token
        ∙ ap (λ a. has_sent xs ws token || app.is_subscribed ws token a)
            (on_callback-app g i returns)
    run-subscribed g (data_event e ∷ xs) ws token =
        run-subscribed (on_data app redis json token_text d t type g e) xs ws token
        ∙ ap (λ b. has_sent xs ws token || b) (on_data-asks g e ws token)
