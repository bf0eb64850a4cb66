-- ===== src/Prelude/Decimal.antt =====
-- `n.toString()`, a number in a template literal, and `parseInt(s)` of decimal texts.
use Prim.Native.Nat.{ℕ, zero, suc, ◌+◌, ◌-◌, ◌*◌, ◌/◌, ◌%◌, ◌<◌, ◌≤◌}
use Prim.Native.Char.{code}
use Prim.Native.String.{String, ◌++◌, ◌∷◌}
use mathlib.Core.Path.{◌≡◌, refl}
use mathlib.Core.Logic.{inl, inr}
use mathlib.Core.Bool.{Bool, true, false, ◌&&◌}
use mathlib.Core.Option.{Option, none, some}
use native.Mathlib.Omega.{arith}
use text.Mathlib.TextLemmas.{nil-append, cons-append}
use streamerson.Prelude.Tests.{ltb, leb, nat_eq, if◌then◌else◌, Bool-cases}
use streamerson.Prelude.Integer.{ℤ, pos, negsuc}

abbrev digit : ℕ → String
digit zero = "0"
digit (suc zero) = "1"
digit (suc (suc zero)) = "2"
digit (suc (suc (suc zero))) = "3"
digit (suc (suc (suc (suc zero)))) = "4"
digit (suc (suc (suc (suc (suc zero))))) = "5"
digit (suc (suc (suc (suc (suc (suc zero)))))) = "6"
digit (suc (suc (suc (suc (suc (suc (suc zero))))))) = "7"
digit (suc (suc (suc (suc (suc (suc (suc (suc zero)))))))) = "8"
digit _ = "9"

-- The digits of a number, with fuel above it.
digits_of : ℕ → ℕ → String
digits_of zero n = ""
digits_of (suc f) n =
    let front = digits_of f (n / 10) in if ltb n 10 then digit n else front ++ digit (n % 10)

unfoldable pub show_nat : ℕ → String
unfolding digits_of
show_nat n = digits_of (suc n) n

unfoldable pub show_int : ℤ → String
unfolding show_nat
show_int (pos n) = show_nat n
show_int (negsuc n) = "-" ++ show_nat (suc n)

abbrev is_digit : ℕ → Bool
is_digit c = leb 48 c && leb c 57

-- Digits are read until a character that is none.
read_digits : ℕ → String → ℕ
read_digits acc String.[] = acc
read_digits acc (c ∷ s) =
    let rest = read_digits (acc * 10 + (code c - 48)) s in if is_digit (code c) then rest else acc

starts_with_digit : String → Bool
starts_with_digit String.[] = false
starts_with_digit (c ∷ s) = is_digit (code c)

-- `parseInt(s)` of a text with no leading space; `none` is NaN.
negated : ℕ → ℤ
negated zero = pos 0
negated (suc n) = negsuc n

unsigned : String → Option ℕ
unfolding starts_with_digit read_digits
unsigned s = if starts_with_digit s then some (read_digits 0 s) else none

map_number : (ℕ → ℤ) → Option ℕ → Option ℤ
map_number f none = none
map_number f (some n) = some (f n)

unfoldable pub parse_int : String → Option ℤ
unfolding unsigned map_number negated
parse_int String.[] = none
parse_int (c ∷ s) =
    if nat_eq (code c) 45
    then map_number negated (unsigned s)
    else if nat_eq (code c) 43
    then map_number pos (unsigned s)
    else map_number pos (unsigned (c ∷ s))

AllDigits : String → Type 0
AllDigits String.[] = Unit
AllDigits (c ∷ s) = (is_digit (code c) ≡ true) × AllDigits s

below_ten :
    (P : ℕ → Type 0)
    → P 0
    → P 1
    → P 2
    → P 3
    → P 4
    → P 5
    → P 6
    → P 7
    → P 8
    → P 9
    → (d : ℕ) → d < 10
    → P d
below_ten P p0 p1 p2 p3 p4 p5 p6 p7 p8 p9 zero h = p0
below_ten P p0 p1 p2 p3 p4 p5 p6 p7 p8 p9 (suc zero) h = p1
below_ten P p0 p1 p2 p3 p4 p5 p6 p7 p8 p9 (suc (suc zero)) h = p2
below_ten P p0 p1 p2 p3 p4 p5 p6 p7 p8 p9 (suc (suc (suc zero))) h = p3
below_ten P p0 p1 p2 p3 p4 p5 p6 p7 p8 p9 (suc (suc (suc (suc zero)))) h = p4
below_ten P p0 p1 p2 p3 p4 p5 p6 p7 p8 p9 (suc (suc (suc (suc (suc zero))))) h = p5
below_ten P p0 p1 p2 p3 p4 p5 p6 p7 p8 p9 (suc (suc (suc (suc (suc (suc zero)))))) h = p6
below_ten P p0 p1 p2 p3 p4 p5 p6 p7 p8 p9 (suc (suc (suc (suc (suc (suc (suc zero))))))) h = p7
below_ten P p0 p1 p2 p3 p4 p5 p6 p7 p8 p9 (suc (suc (suc (suc (suc (suc (suc (suc zero)))))))) h =
    p8
below_ten P p0 p1 p2 p3 p4 p5 p6 p7 p8 p9 (suc (suc (suc (suc (suc (suc (suc (suc (suc zero)))))))))
      h =
    p9
below_ten P p0 p1 p2 p3 p4 p5 p6 p7 p8 p9
      (suc (suc (suc (suc (suc (suc (suc (suc (suc (suc d)))))))))) h =
    absurd (omega arith)

AllDigits-digit : (d : ℕ) → d < 10 → AllDigits (digit d)
unfolding AllDigits
AllDigits-digit =
    below_ten (λ d. AllDigits (digit d)) (refl, tt) (refl, tt) (refl, tt) (refl, tt) (refl, tt)
      (refl, tt) (refl, tt) (refl, tt) (refl, tt) (refl, tt)

AllDigits-append : (s t : String) → AllDigits s → AllDigits t → AllDigits (s ++ t)
unfolding AllDigits
AllDigits-append String.[] t hs ht = rw nil-append ht
AllDigits-append (c ∷ s) t hs ht = rw cons-append (hs.0, AllDigits-append s t hs.1 ht)

read_digit : (acc d : ℕ) → d < 10 → read_digits acc (digit d) ≡ acc * 10 + d
unfolding read_digits
read_digit acc =
    below_ten (λ d. read_digits acc (digit d) ≡ acc * 10 + d) refl refl refl refl refl refl refl
      refl refl refl

read_digits-append :
    (s t : String) (acc : ℕ)
    → AllDigits s
    → read_digits acc (s ++ t) ≡ read_digits (read_digits acc s) t
unfolding read_digits AllDigits
read_digits-append String.[] t acc h = rw nil-append
read_digits-append (c ∷ s) t acc h =
    rw cons-append (rw h.0 (read_digits-append s t (acc * 10 + (code c - 48)) h.1))

digits_of-AllDigits : (f n : ℕ) → AllDigits (digits_of f n)
unfolding digits_of
digits_of-AllDigits zero n = unfold AllDigits in tt
digits_of-AllDigits (suc f) n = elim (Bool-cases (ltb n 10)) [
  | inl small ↦ rw small (AllDigits-digit n (ground arith))
  | inr big ↦ rw big (
      AllDigits-append (digits_of f (n / 10)) (digit (n % 10)) (digits_of-AllDigits f (n / 10))
        (AllDigits-digit (n % 10) (omega arith)))
]

read-digits_of : (f n : ℕ) → n < f → read_digits 0 (digits_of f n) ≡ n
unfolding digits_of
read-digits_of zero n h = elim h [ ]
read-digits_of (suc f) n h = elim (Bool-cases (ltb n 10)) [
  | inl small ↦ rw small (rw (read_digit 0 n (ground arith)) (omega arith))
  | inr big ↦
      let wide : 10 ≤ n = ground arith in
      rw big (
        rw
          (read_digits-append (digits_of f (n / 10)) (digit (n % 10)) 0
            (digits_of-AllDigits f (n / 10)))
          (rw (read-digits_of f (n / 10) (omega arith))
            (rw (read_digit (n / 10) (n % 10) (omega arith)) (omega arith))))
]

starts-append : (s t : String) → starts_with_digit s ≡ true → starts_with_digit (s ++ t) ≡ true
unfolding starts_with_digit
starts-append String.[] t h = cc
starts-append (c ∷ s) t h = rw cons-append h

starts-digits_of : (f n : ℕ) → n < f → starts_with_digit (digits_of f n) ≡ true
unfolding digits_of starts_with_digit
starts-digits_of zero n h = elim h [ ]
starts-digits_of (suc f) n h = elim (Bool-cases (ltb n 10)) [
  | inl small ↦ rw small (
      below_ten (λ d. starts_with_digit (digit d) ≡ true) refl refl refl refl refl refl refl refl
        refl refl n (ground arith))
  | inr big ↦
      let wide : 10 ≤ n = ground arith in
      rw big (
        starts-append (digits_of f (n / 10)) (digit (n % 10))
          (starts-digits_of f (n / 10) (omega arith)))
]

parse-digits :
    (s : String) → starts_with_digit s ≡ true → parse_int s ≡ some (pos (read_digits 0 s))
unfolding parse_int starts_with_digit
parse-digits String.[] h = cc
parse-digits (c ∷ s) h = ground arith

parse-minus : (s : String) → parse_int ("-" ++ s) ≡ map_number negated (unsigned s)
unfolding parse_int
parse-minus s = rw cons-append (rw nil-append)

-- A number that was written as a text is read back.
pub parse_int-show_int : (z : ℤ) → parse_int (show_int z) ≡ some z
unfolding show_int
parse_int-show_int (pos n) =
    rw (parse-digits (digits_of (suc n) n) (starts-digits_of (suc n) n (omega arith)))
      (rw (read-digits_of (suc n) n (omega arith)))
parse_int-show_int (negsuc n) = rw (parse-minus (digits_of (suc (suc n)) (suc n))) (
    unfold unsigned map_number negated in
    rw (starts-digits_of (suc (suc n)) (suc n) (omega arith))
      (rw (read-digits_of (suc (suc n)) (suc n) (omega arith))))

pub parse_int-show_nat : (n : ℕ) → parse_int (show_nat n) ≡ some (pos n)
unfolding show_int
parse_int-show_nat n = parse_int-show_int (pos n)
