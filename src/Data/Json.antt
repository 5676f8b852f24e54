-- ===== src/Data/Json.antt =====
-- The values of a parsed JSON document, which the program types as `Any`, with the `datetime` that
-- it may put among them.
use recru_flow.Base.{
  ℕ, zero, suc, String, ◌≡◌, refl, Bool, true, false, not, Option, none, some, List, [], ◌∷◌, arith,
  str_eq, eq_iff, if◌then◌else◌,
}
use recru_flow.Base.Int.{ℤ, pos, negsuc}

mutual
  -- `float m k` is m / 2^k: every finite double is of this form.
  pub data Value : Type 0 where
    obj : Fields → Value
    arr : Items → Value
    str : String → Value
    int : ℤ → Value
    float : ℤ → ℕ → Value
    bool : Bool → Value
    datetime : ℕ → Value
    null : Value

  -- A dictionary, in the order of its insertions.
  pub data Fields : Type 0 where
    field : String → Value → Fields → Fields
    end : Fields

  -- A list.
  pub data Items : Type 0 where
    cons : Value → Items → Items
    nil : Items

abbrev pub to_list : Items → List Value
to_list nil = []
to_list (cons v vs) = v ∷ to_list vs

-- `d.get(key)` where a missing key and a `None` are told apart.
unfoldable pub lookup : String → Fields → Option Value
lookup key end = none
lookup key (field k v fs) = if str_eq k key then some v else lookup key fs

-- `d.get(key)`
unfoldable pub get : String → Fields → Value
unfolding lookup
get key d = elim (lookup key d) [ none ↦ null | some v ↦ v ]

-- `{**d, key: value}`
unfoldable pub put : String → Value → Fields → Fields
put key value end = field key value end
put key value (field k v fs) =
    if str_eq k key then field k value fs else field k v (put key value fs)

-- `{**d, **overrides}`
unfoldable pub merge : Fields → Fields → Fields
unfolding put
merge d end = d
merge d (field k v overrides) = merge (put k v d) overrides

-- `isinstance(value, str)`
abbrev pub as_str : Value → Option String
as_str (str s) = some s
as_str _ = none

-- `value if isinstance(value, dict) else {}`
abbrev pub as_dict : Value → Fields
as_dict (obj fs) = fs
as_dict _ = end

-- The truth value that `if value` tests.
unfoldable pub truthy : Value → Bool
truthy null = false
truthy (bool b) = b
truthy (int (pos zero)) = false
truthy (int (pos (suc n))) = true
truthy (int (negsuc n)) = true
truthy (float (pos zero) k) = false
truthy (float (pos (suc n)) k) = true
truthy (float (negsuc n) k) = true
truthy (str s) = not (str_eq s "")
truthy (datetime t) = true
truthy (arr nil) = false
truthy (arr (cons v vs)) = true
truthy (obj end) = false
truthy (obj (field k v fs)) = true

pub lookup-put :
    (k j : String) (v : Value) (d : Fields)
    → lookup j (put k v d) ≡ (if str_eq k j then some v else lookup j d)
unfolding lookup put
lookup-put k j v end = refl
lookup-put k j v (field i w d) =
    ground (arith, eq_iff k j, eq_iff i k, eq_iff i j, lookup-put k j v d)
