-- ===== src/Data/Text/Digits.antt =====
-- The decimal text of a number determines the number, also inside the keys that are built from it.
use Prim.Native.Char.{code}
use text.Mathlib.TextLemmas.{nil-append, cons-append}
use recru_flow.Base.{
  ℕ, zero, suc, ◌+◌, ◌-◌, ◌*◌, ◌/◌, ◌%◌, ◌≤◌, ◌<◌, String, ◌<>◌, ◌≡◌, sym, ap, ◌∙◌, inl, inr, arith,
  ltb, Bool-cases,
}
use recru_flow.Data.Text.{digit, decimal, show}

-- The number that a text of digits stands for, behind the number of the digits before it.
value : ℕ → String → ℕ
value n String.[] = n
value n (String.◌∷◌ c s) = value (n * 10 + (code c - 48)) s

value-append : (n : ℕ) (s t : String) → value n (s <> t) ≡ value (value n s) t
unfolding value
value-append n String.[] t = ap (value n) (nil-append t)
value-append n (String.◌∷◌ c s) t =
    ap (value n) (cons-append c s t) ∙ value-append (n * 10 + (code c - 48)) s t

value-digit : (n d : ℕ) → d < 10 → value n (digit d) ≡ n * 10 + d
unfolding value
value-digit n zero h = omega arith
value-digit n (suc zero) h = omega arith
value-digit n (suc (suc zero)) h = omega arith
value-digit n (suc (suc (suc zero))) h = omega arith
value-digit n (suc (suc (suc (suc zero)))) h = omega arith
value-digit n (suc (suc (suc (suc (suc zero))))) h = omega arith
value-digit n (suc (suc (suc (suc (suc (suc zero)))))) h = omega arith
value-digit n (suc (suc (suc (suc (suc (suc (suc zero))))))) h = omega arith
value-digit n (suc (suc (suc (suc (suc (suc (suc (suc zero)))))))) h = omega arith
value-digit n (suc (suc (suc (suc (suc (suc (suc (suc (suc zero))))))))) h = omega arith
value-digit n (suc (suc (suc (suc (suc (suc (suc (suc (suc (suc d)))))))))) h =
    absurd (omega (arith, h))

value-decimal : (fuel n : ℕ) → n ≤ fuel → value 0 (decimal fuel n) ≡ n
unfolding decimal
value-decimal zero n h = value-digit 0 n (omega (arith, h)) ∙ omega arith
value-decimal (suc fuel) n h = elim (Bool-cases (ltb n 10)) [
  | inl low ↦ rw low (value-digit 0 n (ground (arith, low)) ∙ omega arith)
  | inr high ↦ rw high (
      value-append 0 (decimal fuel (n / 10)) (digit (n % 10))
      ∙ value-digit _ (n % 10) (omega arith)
      ∙ rw (value-decimal fuel (n / 10) (ground (arith, high, h))) (omega arith))
]

pub show_inj : (m n : ℕ) → show m ≡ show n → m ≡ n
unfolding show
show_inj m n e =
    sym (value-decimal m m (omega arith)) ∙ ap (value 0) e ∙ value-decimal n n (omega arith)
