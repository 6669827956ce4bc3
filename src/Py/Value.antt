-- ===== src/Py/Value.antt =====
-- The values of `json.load`. A dict keeps the order of its keys. An integer is `pos n` for n and
-- `negsuc n` for -(n + 1); a number with a fraction or an exponent keeps its text, and arithmetic
-- on it is a parameter where a tool computes with one. The text is the one that `repr` prints.
use quest_termux_lab.Base.{
  Bool, List, Option, String, [], ap, false, ltb, member, none, not, refl, some, suc, true, zero, ℕ,
  ◌==◌, ◌||◌, ◌∷◌, ◌≡◌,
}

pub data ℤ : Type 0 where
  pos : ℕ → ℤ
  negsuc : ℕ → ℤ

mutual
  pub data Value : Type 0 where
    obj : Fields → Value
    arr : Items → Value
    null : Value
    bool : Bool → Value
    int : ℤ → Value
    float : String → Value
    str : String → Value

  pub data Fields : Type 0 where
    field : String → Value → Fields → Fields
    end : Fields

  pub data Items : Type 0 where
    cons : Value → Items → Items
    nil : Items

-- list(items), and the array of a list
abbrev pub to_list : Items → List Value
to_list nil = []
to_list (cons v vs) = v ∷ to_list vs

abbrev pub of_list : List Value → Items
of_list [] = nil
of_list (v ∷ vs) = cons v (of_list vs)

pub to_list-of_list : (vs : List Value) → to_list (of_list vs) ≡ vs
to_list-of_list [] = refl
to_list-of_list (v ∷ vs) = ap (λ l. v ∷ l) (to_list-of_list vs)

-- A dict display, `{"k": v, …}`.
abbrev pub dict : List (String × Value) → Fields
dict [] = end
dict ((k, v) ∷ rest) = field k v (dict rest)

abbrev pub array : List Value → Value
array vs = arr (of_list vs)

abbrev pub nat : ℕ → Value
nat n = int (pos n)

-- isinstance(v, str) and so on; `bool` is a subclass of `int`
abbrev pub as_str : Value → Option String
as_str (str s) = some s
as_str _ = none

abbrev pub as_int : Value → Option ℤ
as_int (int z) = some z
as_int (bool true) = some (pos 1)
as_int (bool false) = some (pos 0)
as_int _ = none

abbrev pub as_dict : Value → Option Fields
as_dict (obj d) = some d
as_dict _ = none

abbrev pub as_list : Value → Option (List Value)
as_list (arr vs) = some (to_list vs)
as_list _ = none

abbrev pub is_bool : Value → Bool
is_bool (bool _) = true
is_bool _ = false

-- `v is True`, `v is False`, `v is None`
abbrev pub is_true : Value → Bool
is_true (bool b) = b
is_true _ = false

abbrev pub is_false : Value → Bool
is_false (bool false) = true
is_false _ = false

abbrev pub is_null : Value → Bool
is_null null = true
is_null _ = false

-- v == s for a text s
abbrev pub is_text : Value → String → Bool
is_text (str t) s = t == s
is_text _ s = false

-- bool(v)
abbrev pub truthy : Value → Bool
truthy null = false
truthy (bool b) = b
truthy (int (pos zero)) = false
truthy (int _) = true
truthy (float t) = not (t == "0.0" || t == "-0.0")
truthy (str s) = not (s == "")
truthy (arr nil) = false
truthy (arr _) = true
truthy (obj end) = false
truthy (obj _) = true

-- A value that cannot be a member of a set or a key of a dict.
abbrev pub unhashable : Value → Bool
unhashable (arr _) = true
unhashable (obj _) = true
unhashable _ = false

-- isinstance(v, str)
abbrev pub is_str : Value → Bool
is_str (str s) = true
is_str _ = false

-- A text that may be None.
abbrev pub or_null : Option String → Value
or_null none = null
or_null (some s) = str s

-- z > 0, z - 1, a < b and a + 1
abbrev pub is_pos : ℤ → Bool
is_pos (pos zero) = false
is_pos (pos (suc n)) = true
is_pos (negsuc n) = false

abbrev pub minus_one : ℤ → ℤ
minus_one (pos zero) = negsuc 0
minus_one (pos (suc n)) = pos n
minus_one (negsuc n) = negsuc (suc n)

abbrev pub plus_one : ℤ → ℤ
plus_one (pos n) = pos (suc n)
plus_one (negsuc zero) = pos 0
plus_one (negsuc (suc n)) = negsuc n

abbrev pub lt_ℤ : ℤ → ℤ → Bool
lt_ℤ (pos a) (pos b) = ltb a b
lt_ℤ (pos a) (negsuc b) = false
lt_ℤ (negsuc a) (pos b) = true
lt_ℤ (negsuc a) (negsuc b) = ltb b a

-- v, for a value that was tested to be a text
abbrev pub text : Value → String
text (str s) = s
text _ = ""

-- isinstance(v, str) and v
abbrev pub is_name : Value → Bool
is_name (str s) = not (s == "")
is_name _ = false

-- v in names, for a set of texts and a value that was tested to be a text
abbrev pub is_one_of : Value → List String → Bool
is_one_of (str s) names = member s names
is_one_of _ names = false

-- isinstance(v, int) and v >= 0
abbrev pub is_count : Value → Bool
is_count (int (pos n)) = true
is_count (bool b) = true
is_count _ = false

-- An update of a dict in place, where a list holds it.
abbrev pub on_dict : (Fields → Fields) → Value → Value
on_dict f (obj d) = obj (f d)
on_dict f v = v

-- The number of a value that was tested to be a count.
abbrev pub count_of : Value → ℕ
count_of (int (pos n)) = n
count_of (bool true) = 1
count_of _ = 0

-- isinstance(v, int) and v > 0
abbrev pub is_positive : Value → Bool
is_positive (int z) = is_pos z
is_positive (bool b) = b
is_positive _ = false
