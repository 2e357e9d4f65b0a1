-- ===== src/Prelude/Text/Digits.antt =====
-- The digits of different numbers differ: the value of the digits gives the number back.
use Prim.Native.Nat.{ℕ, zero, suc, ◌+◌, ◌-◌, ◌*◌, ◌/◌, ◌%◌, ◌^◌, ◌<◌}
use Prim.Native.Char.{code}
use Prim.Native.String.{String, ◌++◌}
use mathlib.Core.Path.{◌≡◌, refl, sym, ap, ◌∙◌}
use mathlib.Core.Logic.{inl, inr}
use native.Mathlib.Omega.{arith}
use text.Mathlib.TextLemmas.{nil-append, cons-append}
use ruflo_rust.Prelude.Tests.{leb, Bool-cases}
use mathlib.Core.Bool.{Bool, true}
use Prim.Native.Nat.{◌≤◌}
use ruflo_rust.Prelude.Text.{all_chars, all_chars-append, digit, decimal_go, decimal}

-- The value of the digits of a text, after those that are worth `a`.
value : ℕ → String → ℕ
value a String.[] = a
value a (String.◌∷◌ c s) = value (a * 10 + (code c - 48)) s

value-append : (a : ℕ) (t s : String) → value a (t ++ s) ≡ value (value a t) s
unfolding value
value-append a String.[] s = ap (value a) (nil-append s)
value-append a (String.◌∷◌ c t) s =
    ap (value a) (cons-append c t s) ∙ value-append (a * 10 + (code c - 48)) t s

value-digit : (d a : ℕ) → d < 10 → value a (digit d) ≡ a * 10 + d
unfolding value digit
value-digit zero a h = refl
value-digit (suc zero) a h = refl
value-digit (suc (suc zero)) a h = refl
value-digit (suc (suc (suc zero))) a h = refl
value-digit (suc (suc (suc (suc zero)))) a h = refl
value-digit (suc (suc (suc (suc (suc zero))))) a h = refl
value-digit (suc (suc (suc (suc (suc (suc zero)))))) a h = refl
value-digit (suc (suc (suc (suc (suc (suc (suc zero))))))) a h = refl
value-digit (suc (suc (suc (suc (suc (suc (suc (suc zero)))))))) a h = refl
value-digit (suc (suc (suc (suc (suc (suc (suc (suc (suc zero))))))))) a h = refl
value-digit (suc (suc (suc (suc (suc (suc (suc (suc (suc (suc d)))))))))) a h = absurd (omega arith)

-- One digit in front of a text.
value-digit-append : (d a : ℕ) (s : String) → d < 10 → value a (digit d ++ s) ≡ value (a * 10 + d) s
value-digit-append d a s h = value-append a (digit d) s ∙ ap (λ k. value k s) (value-digit d a h)

small : (p n : ℕ) → n < 10 * p → n / 10 < p
small p n h = omega arith

pow_suc : (f n : ℕ) → n < 10 ^ suc f → n < 10 * 10 ^ f
pow_suc f n h = omega arith

whole : (n : ℕ) → (n / 10) * 10 + n % 10 ≡ n
whole n = omega arith

value-decimal_go :
    (f n : ℕ) (acc : String) → n < 10 ^ f → value 0 (decimal_go f n acc) ≡ value n acc
unfolding decimal_go value
value-decimal_go zero n acc h = ap (λ k. value k acc) (omega arith)
value-decimal_go (suc f) n acc h = elim (Bool-cases (leb n 9)) [
  | inl e ↦ rw e (value-digit-append n 0 acc (ground arith) ∙ ap (λ k. value k acc) (omega arith))
  | inr e ↦ rw e (
      value-decimal_go f (n / 10) (digit (n % 10) ++ acc) (small (10 ^ f) n (pow_suc f n h))
      ∙ value-digit-append (n % 10) (n / 10) acc (omega arith)
      ∙ ap (λ k. value k acc) (whole n))
]

pub decimal-injective : (m n : ℕ) → m < 10 ^ 20 → n < 10 ^ 20 → decimal m ≡ decimal n → m ≡ n
unfolding decimal value
decimal-injective m n hm hn e =
    sym (value-decimal_go 20 m "" hm) ∙ ap (value 0) e ∙ value-decimal_go 20 n "" hn

all_chars-digit :
    (p : ℕ → Bool) (d : ℕ) → ((c : ℕ) → 48 ≤ c → c ≤ 57 → p c ≡ true) → all_chars p (digit d) ≡ true
unfolding digit
all_chars-digit p zero h = ground (arith, h 48)
all_chars-digit p (suc zero) h = ground (arith, h 49)
all_chars-digit p (suc (suc zero)) h = ground (arith, h 50)
all_chars-digit p (suc (suc (suc zero))) h = ground (arith, h 51)
all_chars-digit p (suc (suc (suc (suc zero)))) h = ground (arith, h 52)
all_chars-digit p (suc (suc (suc (suc (suc zero))))) h = ground (arith, h 53)
all_chars-digit p (suc (suc (suc (suc (suc (suc zero)))))) h = ground (arith, h 54)
all_chars-digit p (suc (suc (suc (suc (suc (suc (suc zero))))))) h = ground (arith, h 55)
all_chars-digit p (suc (suc (suc (suc (suc (suc (suc (suc zero)))))))) h = ground (arith, h 56)
all_chars-digit p (suc (suc (suc (suc (suc (suc (suc (suc (suc d))))))))) h = ground (arith, h 57)

all_chars-decimal_go :
    (p : ℕ → Bool) (f n : ℕ) (acc : String)
    → ((c : ℕ) → 48 ≤ c → c ≤ 57 → p c ≡ true)
    → all_chars p acc ≡ true
    → all_chars p (decimal_go f n acc) ≡ true
unfolding decimal_go
all_chars-decimal_go p zero n acc h a = a
all_chars-decimal_go p (suc f) n acc h a = elim (Bool-cases (leb n 9)) [
  | inl e ↦ rw e (all_chars-append p (digit n) acc ∙ rw (all_chars-digit p n h, a) refl)
  | inr e ↦ rw e (
      all_chars-decimal_go p f (n / 10) (digit (n % 10) ++ acc) h
        (all_chars-append p (digit (n % 10)) acc ∙ rw (all_chars-digit p (n % 10) h, a) refl))
]

-- A test that every digit passes holds of the digits of a number.
pub all_chars-decimal :
    (p : ℕ → Bool) (n : ℕ)
    → ((c : ℕ) → 48 ≤ c → c ≤ 57 → p c ≡ true)
    → all_chars p (decimal n) ≡ true
unfolding decimal
all_chars-decimal p n h = all_chars-decimal_go p 20 n "" h refl
