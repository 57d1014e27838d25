-- ===== src/Json.antt =====
-- The values of decoded JSON, and of an argument whose type the program tests (`Any`).
-- An integer is its absolute value with a sign, `neg n` is -(n + 1); the program never computes
-- with a non-integral number, which is kept as its text.
use coordinate.Base.{
  nat_dec_eq, string_dec_eq, ℕ, String, Bool, Option, none, some, ◌==◌, if◌then◌else◌,
}

mutual
  pub data Json : Type 0 where
    null : Json
    bool : Bool → Json
    int : ℕ → Json
    neg : ℕ → Json
    real : String → Json
    text : String → Json
    arr : Items → Json
    obj : Fields → Json

  pub data Items : Type 0 where
    nil : Items
    cons : Json → Items → Items

  -- A dictionary. No key stands twice, and the order is that of insertion.
  pub data Fields : Type 0 where
    end : Fields
    field : String → Json → Fields → Fields

-- d.get(k)
abbrev pub get : Fields → String → Option Json
get end k = none
get (field j v m) k = if j == k then some v else get m k

-- d.pop(k, None)
abbrev pub pop : Fields → String → Fields
pop end k = end
pop (field j v m) k = let rest = pop m k in if j == k then rest else field j v rest

-- d[k] = v
abbrev pub put : Fields → String → Json → Fields
put end k v = field k v end
put (field j w m) k v = if j == k then field k v m else field j w (put m k v)
