-- ===== src/Source/Iterate/Ending.antt =====
-- How the stream iterator ends.
use streamerson.Prelude.{◌≡◌, arith, Bool, true, List, [], ◌∷◌}
use streamerson.Message.{Json}
use streamerson.Redis.{Redis}
use streamerson.Source.{StreamingDataSource}
use streamerson.Source.Read.{BatchOptions}
use streamerson.Source.Iterate.{Iterator, Turn, key_update, finished, iterate, turn}

-- When a change of keys wins the race of a turn, the iterator yields nothing more and is finished,
-- whatever the later turns would bring.
pub iterate-key_update :
    (json : Json) {S : Type 0} (redis : Redis S) (d : StreamingDataSource) (o : BatchOptions)
    (it : Iterator) (updated : Bool) (later : List Turn) (s : S)
    → it.active ≡ true
    → iterate json redis d o it (record { updated = updated; wake = key_update } ∷ later) s
      ≡ (record { events = []; status = finished }, s)
unfolding iterate turn
iterate-key_update json redis d o it updated [] s h = ground (arith, h)
iterate-key_update json redis d o it updated (t ∷ later) s h = ground (arith, h)
