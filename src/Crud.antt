-- ===== src/Crud.antt =====
-- The example of a service over a datastore: datastore.ts and crud.ts of
-- packages/examples/app-basic-crud. The datastore's client is an interface; an ID is drawn outside. What
-- is stored, and the payload of an event, is an object, given by its fields.
use streamerson.Prelude.{
  String, ◌≡◌, ap, ◌∙◌, Bool, true, not, Option, none, some, [], ◌∷◌, or_else, if◌then◌else◌,
}
use streamerson.Prelude.Result.{Result, ok, err, map_ok}
use streamerson.Prelude.Text.{template}
use streamerson.Prelude.Value.{
  Value, Fields, bool, str, obj, end, field, assign, spread, truthy_value,
}
use streamerson.Message.{Json}

-- The methods of the client that are called. `get` gives a text, or null or undefined.
pub record Client (S : Type 0) : Type 0 where
  pub get : String → S → Result (Option String) × S
  pub set : String → String → S → Result Value × S
  pub del : String → S → Result Value × S

-- `{ ...v }` of an object
abbrev pub fields_of : Value → Fields
fields_of (obj r fs) = fs
fields_of v = end

module _ (json : Json) {S : Type 0} (client : Client S) where
  -- `Datastore.set`
  unfoldable pub store : String → Fields → S → Result Value × S
  store key value s = client.set key (json.stringify (obj none value)) s

  parse_found : Result (Option String) → Result Value
  parse_found (err e) = err e
  parse_found (ok text) = json.parse (or_else text "undefined")

  -- `Datastore.get`
  unfoldable pub find : String → S → Result Value × S
  unfolding parse_found
  find key s = let (r, s') = client.get key s in (parse_found r, s')

  -- `Datastore.del`
  unfoldable pub remove : String → S → Result Bool × S
  remove key s = let (r, s') = client.del key s in (map_ok truthy_value r, s')

  unfoldable pub update_found : String → Fields → Result Value × S → Result Value × S
  unfolding store
  update_found key value (err e, s) = (err e, s)
  update_found key value (ok existing, s) =
      if not (truthy_value existing)
      then (err (template ("No existing value found for key " ∷ key ∷ [])), s)
      else store key (spread (fields_of existing) value) s

  -- `Datastore.update`
  unfoldable pub update : String → Fields → S → Result Value × S
  unfolding update_found find
  update key value s = update_found key value (find key s)

  unfoldable pub create_found : String → Fields → Result Value × S → Result Value × S
  unfolding store
  create_found key value (err e, s) = (err e, s)
  create_found key value (ok existing, s) =
      if truthy_value existing
      then (err (template ("Existing value found for key " ∷ key ∷ [])), s)
      else store key value s

  -- `Datastore.create`
  unfoldable pub create : String → Fields → S → Result Value × S
  unfolding create_found find
  create key value s = create_found key value (find key s)

  -- The handlers of `createCrudService(datastore)`: with the ID that is drawn, or that of the payload.
  unfoldable pub handle_create : String → Fields → S → Result Value × S
  unfolding create
  handle_create id payload s =
      let object = assign payload "id" (str id) in
      let (r, s') = create id object s in (map_ok (λ _. obj none object) r, s')

  unfoldable pub handle_read : String → S → Result Value × S
  unfolding find
  handle_read id s = let (r, s') = find id s in (map_ok (λ v. obj none (field "data" v end)) r, s')

  unfoldable pub handle_update : String → Fields → S → Result Value × S
  unfolding update
  handle_update id payload s = update id payload s

  unfoldable pub handle_delete : String → S → Result Value × S
  unfolding remove
  handle_delete id s =
      let (r, s') = remove id s in
      (map_ok (λ deleted. obj none (field "deleted" (bool deleted) end)) r, s')

  module _ (no_json : (e : String) × (json.parse "undefined" ≡ err e)) where
    find-missing :
        (id : String) (s : S)
        → (client.get id s).0 ≡ ok none
        → find id s ≡ (err no_json.0, (client.get id s).1)
    unfolding find
    find-missing id s missing = rw missing (rw no_json.1)

    -- `undefined` is no JSON. So where an ID is not stored, a read and an update of it fail, and so does the
    -- creation of an object under it, all with the error of `JSON.parse`: nothing is written.
    pub handlers-missing :
        (id : String) (payload : Fields) (s : S)
        → (client.get id s).0 ≡ ok none
        → let failed : Result Value × S = (err no_json.0, (client.get id s).1) in
          (handle_create id payload s ≡ failed)
          × (handle_read id s ≡ failed)
          × (handle_update id payload s ≡ failed)
    unfolding handle_create handle_read handle_update
    handlers-missing id payload s missing =
        let h = find-missing id s missing in
        (
          ap
              (λ (x : Result Value × S).
                let made = create_found id (assign payload "id" (str id)) x in
                (map_ok (λ _. obj none (assign payload "id" (str id))) made.0, made.1))
              h,
          ap (λ (x : Result Value × S). (map_ok (λ v. obj none (field "data" v end)) x.0, x.1)) h,
          ap (update_found id payload) h,
        )

-- A client that answers with what was last set.
module _ (json : Json) {S : Type 0} (client : Client S)
    (kept : (id text : String) (s : S) (v : Value)
      → (client.set id text s).0 ≡ ok v
      → (client.get id (client.set id text s).1).0 ≡ ok (some text)) where
  find-held :
      (id text : String) (w : Value) (s : S)
      → (client.get id s).0 ≡ ok (some text)
      → json.parse text ≡ ok w
      → find json client id s ≡ (ok w, (client.get id s).1)
  unfolding find
  find-held id text w s held parsed = rw held (rw parsed)

  -- Where an object is stored under an ID, and the client accepts: an update of it writes the object with
  -- the fields of the payload over its own, and a read then gives that, if it is plain JSON.
  pub handle_read-handle_update :
      (id text : String) (old payload : Fields) (s : S) {v : Value}
      → (client.get id s).0 ≡ ok (some text)
      → json.parse text ≡ ok (obj none old)
      → json.plain (obj none (spread old payload)) ≡ true
      → (client.set id (json.stringify (obj none (spread old payload))) (client.get id s).1).0
        ≡ ok v
      → let after = (handle_update json client id payload s).1 in
        ((handle_update json client id payload s).0 ≡ ok v)
        × ((handle_read json client id after).0
            ≡ ok (obj none (field "data" (obj none (spread old payload)) end)))
  unfolding handle_update handle_read store
  handle_read-handle_update id text old payload s {v} held parsed plain accepted =
      let merged : Value = obj none (spread old payload) in
      let s₁ = (client.get id s).1 in
      let written : handle_update json client id payload s
          ≡ client.set id (json.stringify merged) s₁ =
        ap (update_found json client id payload) (find-held id text (obj none old) s held parsed) in
      let s₂ = (client.set id (json.stringify merged) s₁).1 in
      let found : find json client id s₂ ≡ (ok merged, (client.get id s₂).1) =
        find-held id (json.stringify merged) merged s₂
          (kept id (json.stringify merged) s₁ v accepted) (json.parse-stringify merged plain) in
      (
        ap (λ (x : Result Value × S). x.0) written ∙ accepted,
        ap (λ (x : Result Value × S). (handle_read json client id x.1).0) written
            ∙ ap (λ (x : Result Value × S). map_ok (λ w. obj none (field "data" w end)) x.0) found,
      )
