-- ===== src/StateMachine/Transfer.antt =====
-- Transfers of state to another shard.
use streamerson.Prelude.{
  String, ◌≡◌, refl, false, Option, none, some, Bool-cases, inl, inr, if◌then◌else◌, truthy?,
}
use streamerson.Prelude.Result.{err, Result-cases}
use streamerson.Prelude.Value.{Value}
use streamerson.Message.{Json}
use streamerson.Redis.{Redis}
use streamerson.Source.{StreamingDataSource}
use streamerson.Awaiter.{StreamAwaiter, new_awaiter, dispatch_target}
use streamerson.Awaiter.Dispatching.{dispatch-no_target}
use streamerson.Cache.{Lru}
use streamerson.StateCache
use streamerson.StateCache.{Called}
use streamerson.StateMachine.{
  StreamStateMachine, transfer, transfer_awaiter, target_key, get, send, dispatched,
}

no_target :
    (a : StreamAwaiter) (incoming : String) (shard : Option String) (channel : StreamingDataSource)
    → a ≡ transfer_awaiter incoming shard channel
    → truthy? (dispatch_target a none) ≡ false
unfolding transfer_awaiter new_awaiter dispatch_target
no_target a incoming shard channel e = rw e

module _ {C S : Type 0} (lru : Lru C) (redis : Redis S) (json : Json) where
  send-throws :
      (m : StreamStateMachine C S) (id state shard_target : String) (c : Called C S Value)
      → truthy? (dispatch_target m.transfer_channel none) ≡ false
      → (e : String) × ((send lru redis json m id state shard_target c).awaits ≡ err e)
        × ((send lru redis json m id state shard_target c).awaiter ≡ m.transfer_channel)
        × ((send lru redis json m id state shard_target c).server ≡ c.server)
  unfolding send dispatched
  send-throws m id state shard_target c h = elim (Result-cases c.result) [
    | inr (e, failed) ↦ (e, rw failed, rw failed, rw failed)
    | inl (v, found) ↦ (
      "Either a configured or override stream target must be provided",
      rw found (
          rw (
            dispatch-no_target redis m.transfer_channel id _ "TRANSFER" (some shard_target)
              (some "transfer") none c.server h)),
      rw found (
          rw (
            dispatch-no_target redis m.transfer_channel id _ "TRANSFER" (some shard_target)
              (some "transfer") none c.server h)),
      rw found (
          rw (
            dispatch-no_target redis m.transfer_channel id _ "TRANSFER" (some shard_target)
              (some "transfer") none c.server h)),
    )
  ]

  -- With the awaiter that the constructor makes for it, a transfer always throws, whether the state is
  -- held or not, and no request is sent or tracked: the server is at most read.
  pub transfer-throws :
      (m : StreamStateMachine C S) (incoming : String) (channel : StreamingDataSource)
      (id state target shard_target : String) (s : S)
      → m.transfer_channel ≡ transfer_awaiter incoming m.shard channel
      → (e : String) × ((transfer lru redis json m id state target shard_target s).awaits ≡ err e)
        × ((transfer lru redis json m id state target shard_target s).awaiter ≡ m.transfer_channel)
        × ((transfer lru redis json m id state target shard_target s).server ≡ (
            if StateCache.has lru m.state_cache state (target_key m state target)
            then (get lru redis m state target s).server
            else s))
  unfolding transfer
  transfer-throws m incoming channel id state target shard_target s h =
      elim (Bool-cases (StateCache.has lru m.state_cache state (target_key m state target))) [
        | inl held ↦ rw held (
            send-throws m id state shard_target (get lru redis m state target s)
              (no_target m.transfer_channel incoming m.shard channel h))
        | inr missing ↦ rw missing (_, refl, refl, refl)
      ]
