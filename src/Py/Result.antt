-- ===== src/Py/Result.antt =====
-- Exceptions as values. A function that may raise returns a `Result`.
use mathlib.Core.Path.{subst}
use quest_termux_lab.Base.{
  All, Bool, List, String, [], ap, false, length, map, refl, suc, sym, true, ◌∙◌, ◌∷◌, ◌≡◌,
}

-- The exception classes that the tools raise or let through. A `ValueError` keeps its message,
-- which the handlers report; a `KeyError` keeps its key.
pub data Error : Type 0 where
  value_error : String → Error
  key_error : String → Error
  type_error : Error
  overflow_error : Error

pub data Result {ℓ} (A : Type ℓ) : Type ℓ where
  ok : A → Result A
  err : Error → Result A

-- What a function that only checks returns.
abbrev pub Check : Type 0
Check = Result (Unit {0})

-- `if not condition: raise e`
abbrev pub guard : Bool → Error → Check
guard false e = err e
guard true e = ok tt

-- What follows a step that may raise: an exception ends the sequence.
infixl 5 ◌>>=◌ ◌>>◌
abbrev pub ◌>>=◌ {ℓ κ} : {V : Type ℓ} {W : Type κ} → Result V → (V → Result W) → Result W
err e >>= next = err e
ok value >>= next = next value

abbrev pub ◌>>◌ {ℓ} : {W : Type ℓ} → Check → Result W → Result W
first_step >> rest = first_step >>= λ _. rest

pub >>=-eq-ok {ℓ κ} :
    {V : Type ℓ} {W : Type κ} (step : Result V) (next : V → Result W) {result : W}
    → (step >>= next) ≡ ok result
    → (value : V) × (step ≡ ok value) × (next value ≡ ok result)
>>=-eq-ok (err e) next same = cc
>>=-eq-ok (ok value) next same = (value, refl, same)

pub guard-eq-ok : (b : Bool) (e : Error) {u : Unit {0}} → guard b e ≡ ok u → b ≡ true
guard-eq-ok true e h = refl
guard-eq-ok false e h = cc

-- A comprehension, or a loop that appends, whose body may raise.
abbrev pub map_ok {ℓ κ} : {A : Type ℓ} {B : Type κ} → (A → Result B) → List A → Result (List B)
map_ok f [] = ok []
map_ok f (x ∷ xs) = f x >>= λ y. map_ok f xs >>= λ ys. ok (y ∷ ys)

-- A loop that only checks.
abbrev pub each {ℓ} : {A : Type ℓ} → (A → Result (Unit {0})) → List A → Result (Unit {0})
each f [] = ok tt
each f (x ∷ xs) = f x >> each f xs

abbrev pub map_result {ℓ κ} : {A : Type ℓ} {B : Type κ} → (A → B) → Result A → Result B
map_result f (ok a) = ok (f a)
map_result f (err e) = err e

pub ok-injective {ℓ} : {A : Type ℓ} {a b : A} → ok a ≡ ok b → a ≡ b
ok-injective h = cc

-- Inversion of a successful bind, with the rest of the proof as a function: long chains stay small.
pub on_ok {ℓ κ μ} :
    {A : Type ℓ} {B : Type κ} {P : Type μ} (m : Result A) {f : A → Result B} {b : B}
    → (m >>= f) ≡ ok b
    → ((a : A) → m ≡ ok a → f a ≡ ok b → P)
    → P
on_ok (ok a) h k = k a refl h
on_ok (err e) h k = absurd (cc h)

pub on_guard {ℓ κ} :
    {B : Type ℓ} {P : Type κ} (b : Bool) (e : Error) {rest : Result B} {r : B}
    → (guard b e >> rest) ≡ ok r
    → (b ≡ true → rest ≡ ok r → P)
    → P
on_guard true e h k = k refl h
on_guard false e h k = absurd (cc h)

pub map_ok-map {ℓ κ} :
    {A : Type ℓ} {B : Type κ} (f : A → Result B) (g : A → B)
    → ((a : A) → f a ≡ ok (g a))
    → (xs : List A) → map_ok f xs ≡ ok (map g xs)
map_ok-map f g same [] = refl
map_ok-map f g same (x ∷ xs) = rw (same x, map_ok-map f g same xs) refl

-- `except ValueError as error: value = f(str(error))`; any other exception passes through
abbrev pub on_value_error {ℓ} : {A : Type ℓ} → Result A → (String → A) → Result A
on_value_error (ok a) f = ok a
on_value_error (err (value_error message)) f = ok (f message)
on_value_error (err e) f = err e

abbrev pub is_ok {ℓ} : {A : Type ℓ} → Result A → Bool
is_ok (ok a) = true
is_ok (err e) = false

pub not_false : false ≡ true → ⊥
not_false h = cc h

-- The value of a step that returns.
abbrev pub value_of {ℓ} : {A : Type ℓ} (r : Result A) → is_ok r ≡ true → A
value_of (ok a) h = a
value_of (err e) h = absurd (not_false h)

pub map_ok-length {ℓ κ} :
    {A : Type ℓ} {B : Type κ} (f : A → Result B) (xs : List A) (ys : List B)
    → map_ok f xs ≡ ok ys
    → length ys ≡ length xs
map_ok-length f [] ys h = ap length (sym (ok-injective h))
map_ok-length f (x ∷ xs) ys h = on_ok (f x) h λ y _ h1.
    on_ok (map_ok f xs) h1
      λ rest same h2. ap length (sym (ok-injective h2)) ∙ ap suc (map_ok-length f xs rest same)

-- What follows from what is known of each result.
pub map_ok-All {ℓ κ μ ν} :
    {A : Type ℓ} {B : Type κ} (P : A → Type μ) (Q : B → Type ν) (f : A → Result B)
    → ((a : A) (b : B) → f a ≡ ok b → Q b → P a)
    → (xs : List A) (ys : List B) → map_ok f xs ≡ ok ys
    → All Q ys
    → All P xs
map_ok-All P Q f back [] ys h known = tt
map_ok-All P Q f back (x ∷ xs) ys h known = on_ok (f x) h λ y made h1.
    on_ok (map_ok f xs) h1 λ rest same h2.
      let (here, there) = subst (All Q) (sym (ok-injective h2)) known in
      (back x y made here, map_ok-All P Q f back xs rest same there)
