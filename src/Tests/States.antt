-- ===== src/Tests/States.antt =====
-- The state machine and the state emitter at concrete inputs.
use streamerson.Prelude.{
  ℕ, ◌≡◌, refl, ◌⊎◌, inr, All, true, false, none, some, List, [], ◌∷◌, ◌++◌, arith, ◌==◌,
  if◌then◌else◌,
}
use streamerson.Prelude.Result.{ok}
use streamerson.Prelude.Dict
use streamerson.Prelude.Dict.{Dict, get-put, get-remove}
use streamerson.Prelude.Integer.{pos}
use streamerson.Prelude.Value.{Value, Fields, num, str, obj, end, field, own, assign}
use streamerson.Prelude.Text.{template, split_dots}
use streamerson.StateMachine.{StreamStateMachine, transfer_awaiter}
use streamerson.StateMachine.Pipe.{Listening}
use streamerson.Emitter.{
  StateEmitter, target_at, output_of, emit_changes, emit, same, deep_merge, seen_with,
  changed_paths, update, set, subscribe, get_nested_value, Notice,
}
use streamerson.Emitter.Merging.{has_key, update-own}
use streamerson.Emitter.Paths.{HasFields, path_notices, Tells, update-Tells}
use streamerson.Prelude.Text.Splitting.{dotless}
use streamerson.Emitter.Listeners.{IsNew, calls_of, times, subscribe-calls}
use streamerson.Tests.Fixtures.{channel, connection}

abbrev machine : StreamStateMachine (Dict Value) ℕ
machine = record {
  state_cache = record {
    states = [];
    auto_cache = record {
      client = connection;
      cached = connection;
      cache = ("gold", str "5") ∷ [];
    };
  };
  shard = none;
  incoming_stream_name = "in";
  outgoing_stream_name = "out";
  incoming_channel = channel;
  outgoing_channel = some channel;
  outgoing_stream = channel;
  transfer_channel = transfer_awaiter "in" none channel;
  stream_events = [];
}

abbrev listening : Listening (Dict Value) ℕ
listening = record { machine = machine; reading = true; writing = true; server = 0 }

-- { purse: { gold: 5, silver: 1 }, name: "a" }
abbrev before : Fields
before =
    field "purse" (obj none (field "gold" (num (pos 5)) (field "silver" (num (pos 1)) end)))
      (field "name" (str "a") end)

-- { purse: { gold: 6 } }
abbrev change : Fields
change = field "purse" (obj (some 2) (field "gold" (num (pos 6)) end)) end

abbrev emitter : StateEmitter
emitter = record { state = before; listeners = [] }

abbrev later : StateEmitter
later = record emitter {
  state =
      field "purse" (obj none (field "gold" (num (pos 6)) (field "silver" (num (pos 1)) end)))
        (field "name" (str "a") end);
}

update-own_example :
    ((has_key change "purse" ≡ true)
      × (deep_merge (own emitter.state "purse") (own change "purse") (seen_with (some 1) [])
          ≡ ok (own later.state "purse")))
    ⊎ ((has_key change "purse" ≡ false) × (own later.state "purse" ≡ own emitter.state "purse"))
unfolding update deep_merge target_at output_of own assign emit_changes changed_paths same template
    Dict.get
update-own_example = update-own emitter (some 1) change "purse" [] later (refl, tt) refl

-- What the listener 7 of "purse.gold" is told of the change.
abbrev told : List Notice
told = record { listener = 7; new_value = num (pos 6); old_value = num (pos 5) } ∷ []

abbrev heard_of : StateEmitter
heard_of = record { state = later.state; listeners = ("change:purse.gold", 7 ∷ []) ∷ [] }

nobody : IsNew emitter 7
unfolding Dict.get
nobody name ls h = ground (arith, h)

subscribe-calls_example :
    (calls_of 7 told ≡ (
      if "purse.gold" == "*"
      then 1
      else times "purse.gold" (changed_paths before heard_of.state "")))
    × (calls_of 7 told ≡ (
        if "purse.gold" == "*"
        then 1
        else times "purse.gold" (changed_paths before heard_of.state "")))
unfolding update set subscribe deep_merge target_at output_of own assign emit_changes changed_paths
    same template Dict.get get_nested_value split_dots Dict.put streamerson.Emitter.get
subscribe-calls_example =
    subscribe-calls emitter "purse.gold" 7 none (some 1) heard_of.state change told told heard_of
      heard_of nobody refl refl

update-Tells_example :
    (emit_changes heard_of before
      ≡ path_notices heard_of before
        ++ emit heard_of "stateChange" (obj none heard_of.state) (obj none before))
    × All Tells (path_notices heard_of before)
unfolding update set own dotless HasFields
update-Tells_example =
    update-Tells (record emitter { listeners = heard_of.listeners }) heard_of
      (emit_changes heard_of before) (some 1) later.state (inr refl)
      (
        refl,
        refl,
        refl,
        (refl, refl, refl, tt, (refl, refl, refl, tt, tt)),
        (refl, refl, refl, tt, tt),
      )
