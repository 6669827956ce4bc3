-- ===== src/Py/Dict.antt =====
-- Dictionaries with text keys: the fields of a JSON object, and tables of Python values.
use quest_termux_lab.Base.{
  Bool, List, Option, String, [], arith, eq_iff, eqb, false, if◌then◌else◌, member, none, refl,
  some, suc, true, ℕ, ◌&&◌, ◌+◌, ◌==◌, ◌∷◌, ◌≡◌,
}
use quest_termux_lab.Py.Result.{Check, Error, Result, each, err, guard, key_error, ok, type_error}
use quest_termux_lab.Py.Value.{
  Fields, Items, Value, arr, as_int, bool, cons, end, field, float, int, negsuc, nil, null, obj,
  pos, str, to_list, ℤ,
}

-- d.get(k), with `none` for a missing key
abbrev pub get? : Fields → String → Option Value
get? end k = none
get? (field j v d) k = if j == k then some v else get? d k

-- k in d
abbrev pub is_there : Option Value → Bool
is_there none = false
is_there (some v) = true

abbrev pub has : Fields → String → Bool
has d k = is_there (get? d k)

-- d.get(k, default)
abbrev pub or_default : Value → Option Value → Value
or_default default none = default
or_default default (some v) = v

abbrev pub get_or : Fields → String → Value → Value
get_or d k default = or_default default (get? d k)

-- d.get(k)
abbrev pub get : Fields → String → Value
get d k = get_or d k null

-- d[k]
abbrev pub or_key_error : String → Option Value → Result Value
or_key_error k none = err (key_error k)
or_key_error k (some v) = ok v

abbrev pub item : Fields → String → Result Value
item d k = or_key_error k (get? d k)

-- d[k] = v: a key that is there keeps its place
unfoldable pub put : Fields → String → Value → Fields
put end k v = field k v end
put (field j w d) k v = if j == k then field j v d else field j w (put d k v)

-- d.update(e)
unfoldable pub update : Fields → Fields → Fields
unfolding put
update d end = d
update d (field k v e) = update (put d k v) e

pub get?-put :
    (d : Fields) (k j : String) (v : Value)
    → get? (put d k v) j ≡ (if k == j then some v else get? d j)
unfolding put
get?-put end k j v = refl
get?-put (field i w d) k j v = ground (arith, eq_iff i k, eq_iff i j, eq_iff k j, get?-put d k j v)

-- A dict with text keys whose values are Python values of one type. Only what a tool reads of the
-- order of its keys is modelled: it sorts them, or it looks a key up.
abbrev pub Table {ℓ} : Type ℓ → Type ℓ
Table V = List (String × V)

module _ {ℓ} {V : Type ℓ} where
  abbrev pub lookup : Table V → String → Option V
  lookup [] k = none
  lookup ((j, v) ∷ t) k = if j == k then some v else lookup t k

  unfoldable pub insert : Table V → String → V → Table V
  insert [] k v = (k, v) ∷ []
  insert ((j, w) ∷ t) k v = if j == k then (j, v) ∷ t else (j, w) ∷ insert t k v

  -- t.pop(k, None)
  unfoldable pub remove : Table V → String → Table V
  remove [] k = []
  remove ((j, w) ∷ t) k = let rest = remove t k in if j == k then rest else (j, w) ∷ rest

  abbrev pub keys : Table V → List String
  keys [] = []
  keys ((j, w) ∷ t) = j ∷ keys t

  pub lookup-insert :
      (t : Table V) (k j : String) (v : V)
      → lookup (insert t k v) j ≡ (if k == j then some v else lookup t j)
  unfolding insert
  lookup-insert [] k j v = refl
  lookup-insert ((i, w) ∷ t) k j v =
      ground (arith, eq_iff i k, eq_iff i j, eq_iff k j, lookup-insert t k j v)

  pub lookup-remove :
      (t : Table V) (k j : String) → lookup (remove t k) j ≡ (if k == j then none else lookup t j)
  unfolding remove
  lookup-remove [] k j = ground arith
  lookup-remove ((i, w) ∷ t) k j =
      ground (arith, eq_iff i k, eq_iff i j, eq_iff k j, lookup-remove t k j)

pub ruleset table_laws = (get?-put, lookup-insert, lookup-remove)

abbrev pub eq_ℤ : ℤ → ℤ → Bool
eq_ℤ (pos m) (pos n) = eqb m n
eq_ℤ (negsuc m) (negsuc n) = eqb m n
eq_ℤ _ _ = false

abbrev same_int : Option ℤ → Option ℤ → Bool
same_int (some a) (some b) = eq_ℤ a b
same_int _ _ = false

abbrev found_by : (Value → Bool) → Option Value → Bool
found_by f none = false
found_by f (some w) = f w

abbrev pub size : Fields → ℕ
size end = 0
size (field k v d) = suc (size d)

-- v == w. A bool equals the integer that it is, and the order of a dict's keys does not count. A
-- float is compared to a float, by its text.
unfoldable mutual
  pub py_eq : Value → Value → Bool
  py_eq null w = elim w [ null ↦ true | _ ↦ false ]
  py_eq (bool b) w = same_int (as_int (bool b)) (as_int w)
  py_eq (int z) w = same_int (some z) (as_int w)
  py_eq (float t) w = elim w [ float u ↦ t == u | _ ↦ false ]
  py_eq (str s) w = elim w [ str t ↦ s == t | _ ↦ false ]
  py_eq (arr vs) w = elim w [ arr ws ↦ eq_items vs ws | _ ↦ false ]
  py_eq (obj d) w = elim w [ obj e ↦ eqb (size d) (size e) && eq_fields d e | _ ↦ false ]

  pub eq_items : Items → Items → Bool
  eq_items nil ws = elim ws [ nil ↦ true | _ ↦ false ]
  eq_items (cons v vs) ws = elim ws [ nil ↦ false | cons w rest ↦ py_eq v w && eq_items vs rest ]

  pub eq_fields : Fields → Fields → Bool
  eq_fields end e = true
  eq_fields (field k v d) e = found_by (λ w. py_eq v w) (get? e k) && eq_fields d e

-- list(v), or a loop over v: the members of a list, the characters of a text, the keys of a dict.
abbrev characters : String → List Value
characters String.[] = []
characters (String.◌∷◌ c s) = str (String.◌∷◌ c String.[]) ∷ characters s

abbrev pub field_names : Fields → List Value
field_names end = []
field_names (field k v d) = str k ∷ field_names d

abbrev pub list_of : Value → Result (List Value)
list_of (arr vs) = ok (to_list vs)
list_of (str s) = ok (characters s)
list_of (obj d) = ok (field_names d)
list_of _ = err type_error

-- A list, or the exception `e`.
abbrev pub array_or : Value → Error → Result (List Value)
array_or (arr vs) e = ok (to_list vs)
array_or _ e = err e

abbrev pub dict_of : Value → Result Fields
dict_of (obj d) = ok d
dict_of _ = err type_error

-- The first dict of a list that passes a test, or the exception `e`.
abbrev pub first_dict : (Value → Bool) → List Value → Error → Result Fields
first_dict p [] e = err e
first_dict p (v ∷ vs) e = let rest = first_dict p vs e in if p v then dict_of v else rest

-- `counts[name] += 1` for each of `found`, over a dict that has the keys `names`
abbrev pub check_members : List String → List String → Check
check_members names found = each (λ s. guard (member s names) (key_error s)) found

abbrev pub count_text : String → List String → ℕ
count_text name [] = 0
count_text name (s ∷ rest) = let n = count_text name rest in if s == name then suc n else n

abbrev pub sum : List ℕ → ℕ
sum [] = 0
sum (n ∷ ns) = n + sum ns

or_key_error-eq-ok :
    (k : String) (o : Option Value) (v : Value) → or_key_error k o ≡ ok v → o ≡ some v
or_key_error-eq-ok k none v h = cc
or_key_error-eq-ok k (some w) v h = cc

pub item-eq-ok : (d : Fields) (k : String) (v : Value) → item d k ≡ ok v → get? d k ≡ some v
item-eq-ok d k v h = or_key_error-eq-ok k (get? d k) v h
