-- ===== src/Tests/Examples.antt =====
-- The example service at concrete inputs: over a datastore with one place.
use streamerson.Prelude.{
  String, ◌≡◌, refl, Bool, true, false, ◌&&◌, not, Option, none, some, ◌==◌, eq_iff, arith,
  if◌then◌else◌,
}
use streamerson.Prelude.Result.{Result, ok, err}
use streamerson.Prelude.Value.{Value, Fields, str, obj, end, field, spread}
use streamerson.Message.{Json}
use streamerson.Crud.{
  Client, handle_create, handle_read, handle_update, handlers-missing, handle_read-handle_update,
}

-- The state is what the one place holds.
abbrev place : Client (Option String)
place = record {
  get = λ id s. (ok s, s);
  set = λ id text s. (ok (str "OK"), some text);
  del = λ id s. (ok (str "OK"), none);
}

-- { name } alone is read and written.
abbrev named : String → Value
named s = obj none (field "name" (str s) end)

abbrev written : Value → String
written (obj none (field k (str s) end)) = s
written v = ""

abbrev is_named : Value → Bool
is_named (obj none (field k (str s) end)) = k == "name"
is_named v = false

abbrev parse_named : String → Result Value
parse_named s = if s == "undefined" then err "Unexpected token u" else ok (named s)

named-parsed :
    (v : Value)
    → (is_named v && not (written v == "undefined")) ≡ true
    → parse_named (written v) ≡ ok v
named-parsed (obj none (field k (str s) end)) h =
    ground (arith, eq_iff k "name", eq_iff s "undefined")
named-parsed v h = cc

abbrev names : Json
names = record {
  parse = parse_named;
  stringify = written;
  plain = λ v. is_named v && not (written v == "undefined");
  parse-stringify = named-parsed;
}

abbrev payload : Fields
payload = field "name" (str "Ada") end

handlers-missing_example :
    (handle_create names place "7" payload none ≡ (err "Unexpected token u", none))
    × (handle_read names place "7" none ≡ (err "Unexpected token u", none))
    × (handle_update names place "7" payload none ≡ (err "Unexpected token u", none))
handlers-missing_example =
    handlers-missing names place ("Unexpected token u", refl) "7" payload none refl

handle_read-handle_update_example :
    (let after = (handle_update names place "7" payload (some "Bea")).1 in
      ((handle_update names place "7" payload (some "Bea")).0 ≡ ok (str "OK"))
      × ((handle_read names place "7" after).0
          ≡ ok (
              obj none
                (field "data" (obj none (spread (field "name" (str "Bea") end) payload)) end))))
unfolding spread
handle_read-handle_update_example =
    handle_read-handle_update names place (λ id text s v h. refl) "7" "Bea"
      (field "name" (str "Bea") end) payload (some "Bea") refl refl refl refl
