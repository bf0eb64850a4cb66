-- ===== src/Prelude/Value.antt =====
-- JavaScript values, as far as the packages handle them. An object or an array carries its identity,
-- by which `===` compares it: `some n` for one that came from outside, `none` for an object that
-- the modelled code allocates itself and whose identity it never compares. The fields of an array
-- are its own properties ("0", "1", …, "length").
use Prim.Native.Nat.{ℕ}
use Prim.Native.String.{String}
use mathlib.Core.Bool.{Bool, true, false, not}
use mathlib.Core.Option.{Option}
use text.Mathlib.Text.{◌==◌}
use streamerson.Prelude.Integer.{ℤ, pos, negsuc}
use streamerson.Prelude.Tests.{nat_eq, if◌then◌else◌}

mutual
  pub data Value : Type 0 where
    undefined null : Value
    bool : Bool → Value
    num : ℤ → Value
    str : String → Value
    arr : Option ℕ → Fields → Value
    obj : Option ℕ → Fields → Value

  pub data Fields : Type 0 where
    end : Fields
    field : String → Value → Fields → Fields

-- `typeof v === 'object'`: also for null and arrays.
abbrev pub typeof_object : Value → Bool
typeof_object null = true
typeof_object (arr r fs) = true
typeof_object (obj r fs) = true
typeof_object _ = false

abbrev is_zero : ℤ → Bool
is_zero (pos n) = nat_eq n 0
is_zero (negsuc n) = false

-- `!!v`
abbrev pub truthy_value : Value → Bool
truthy_value undefined = false
truthy_value null = false
truthy_value (bool b) = b
truthy_value (num n) = not (is_zero n)
truthy_value (str s) = not (s == "")
truthy_value (arr r fs) = true
truthy_value (obj r fs) = true

-- `fs[k]` of an object's own properties.
unfoldable pub own : Fields → String → Value
own end k = undefined
own (field j v fs) k = if j == k then v else own fs k

-- `fs[k] = v`
unfoldable pub assign : Fields → String → Value → Fields
assign end k v = field k v end
assign (field j w fs) k v = if j == k then field j v fs else field j w (assign fs k v)

-- `{ ...a, ...b }` and `Object.assign(a, b)`: the fields of `b` written over those of `a`.
unfoldable pub spread : Fields → Fields → Fields
unfolding assign
spread a end = a
spread a (field k v b) = spread (assign a k v) b
