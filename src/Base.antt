-- ===== src/Base.antt =====
-- The names that the other modules share: the libraries' names passed on, the Boolean tests on
-- numbers, and lists measured by native numbers. Nothing here models code of the repository.
use Prim.Native.Nat.{compare}
use Prim.Native.Nat.{compare, Ordering}
pub use Prim.Native.Nat.{ℕ, zero, suc, ◌+◌, ◌-◌, ◌*◌, ◌/◌, ◌%◌, ◌^◌, ◌≤◌, ◌<◌}
pub use Prim.Native.String.{String}
pub use mathlib.Core.Path.{◌≡◌, refl, sym, ap, ◌∙◌}
use mathlib.Core.Path.{subst}
pub use mathlib.Core.List.{Mem, mem-cons_of_mem, mem-cons_self}
pub use mathlib.Core.Logic.{◌≢◌, ◌↔◌, ◌⊎◌, inl, inr}
pub use mathlib.Core.Bool.{Bool, true, false, not, ◌&&◌, ◌||◌}
pub use mathlib.Core.Option.{Option, none, some}
pub use mathlib.Core.List.{List, [], ◌∷◌, ◌++◌, map}
pub use native.Mathlib.Omega.{arith}
pub use text.Mathlib.Text.{◌==◌}
pub use text.Mathlib.TextEquality.{eq_iff}
pub use text.Mathlib.TextPositions.{eq_refl}

abbrev pub ltb : ℕ → ℕ → Bool
ltb a b = elim (compare a b) [ Ordering.lt ↦ true | _ ↦ false ]

abbrev pub leb : ℕ → ℕ → Bool
leb a b = elim (compare a b) [ Ordering.gt ↦ false | _ ↦ true ]

abbrev pub eqb : ℕ → ℕ → Bool
eqb a b = elim (compare a b) [ Ordering.eq ↦ true | _ ↦ false ]

infix 1 if◌then◌else◌
abbrev pub if◌then◌else◌ {ℓ} : {A : Type ℓ} → Bool → A → A → A
if true then x else y = x
if false then x else y = y

pub ltb→lt : (a b : ℕ) → ltb a b ≡ true → a < b
ltb→lt a b h = ground arith

pub lt→ltb : (a b : ℕ) → a < b → ltb a b ≡ true
lt→ltb a b h = ground arith

pub leb→le : (a b : ℕ) → leb a b ≡ true → a ≤ b
leb→le a b h = ground arith

pub not-false : (b : Bool) → not b ≡ false → b ≡ true
not-false true h = refl
not-false false h = absurd (cc h)

pub not-true : (b : Bool) → not b ≡ true → b ≡ false
not-true true h = absurd (cc h)
not-true false h = refl

pub and_true : (a b : Bool) → (a && b) ≡ true → (a ≡ true) × (b ≡ true)
and_true true b h = (refl, h)
and_true false b h = absurd (cc h)

pub or_false : (a b : Bool) → (a || b) ≡ false → (a ≡ false) × (b ≡ false)
or_false true b h = absurd (cc h)
or_false false b h = (refl, h)

-- Texts that the test finds different are not equal.
pub different : (s t : String) → (s == t) ≡ false → s ≡ t → ⊥
different s t h e =
    let g : (t == t) ≡ false = subst (λ x. (x == t) ≡ false) e h in
    let k : true ≡ false = sym (eq_refl t) ∙ g in absurd (cc k)

pub Bool-cases : (b : Bool) → (b ≡ true) ⊎ (b ≡ false)
Bool-cases true = inl refl
Bool-cases false = inr refl

pub Option-cases {ℓ} : {A : Type ℓ} (o : Option A) → (o ≡ none) ⊎ ((a : A) × (o ≡ some a))
Option-cases none = inl refl
Option-cases (some a) = inr (a, refl)

module _ {ℓ} {A : Type ℓ} where
  abbrev pub length : List A → ℕ
  length [] = 0
  length (x ∷ xs) = suc (length xs)

  -- any(p(x) for x in xs), all(p(x) for x in xs)
  abbrev pub any : (A → Bool) → List A → Bool
  any p [] = false
  any p (x ∷ xs) = p x || any p xs

  abbrev pub all : (A → Bool) → List A → Bool
  all p [] = true
  all p (x ∷ xs) = p x && all p xs

  -- [x for x in xs if p(x)]
  abbrev pub keep : (A → Bool) → List A → List A
  keep p [] = []
  keep p (x ∷ xs) = let rest = keep p xs in if p x then x ∷ rest else rest

  abbrev pub All {κ} : (A → Type κ) → List A → Type κ
  All P [] = Unit
  All P (x ∷ xs) = P x × All P xs

  abbrev pub is_empty : List A → Bool
  is_empty [] = true
  is_empty (x ∷ xs) = false

  pub any-append :
      (p : A → Bool) (xs ys : List A)
      → any p (xs ++ ys) ≡ false
      → (any p xs ≡ false) × (any p ys ≡ false)
  any-append p [] ys h = (refl, h)
  any-append p (x ∷ xs) ys h =
      let (first_no, h1) = or_false (p x) (any p (xs ++ ys)) h in
      let (rest_no, ys_no) = any-append p xs ys h1 in
      (subst (λ b. (b || any p xs) ≡ false) (sym first_no) rest_no, ys_no)

  pub All-append {κ} : (P : A → Type κ) (xs ys : List A) → All P (xs ++ ys) → All P xs × All P ys
  All-append P [] ys h = (tt, h)
  All-append P (x ∷ xs) ys (here, there) =
      let (holds, others) = All-append P xs ys there in ((here, holds), others)

  pub All-imp {κ μ} :
      (P : A → Type κ) (Q : A → Type μ)
      → ((a : A) → P a → Q a)
      → (xs : List A) → All P xs
      → All Q xs
  All-imp P Q f [] h = tt
  All-imp P Q f (x ∷ xs) (here, there) = (f x here, All-imp P Q f xs there)

  pub any-false : (p : A → Bool) (xs : List A) → any p xs ≡ false → All (λ x. p x ≡ false) xs
  any-false p [] h = tt
  any-false p (x ∷ xs) h =
      let (here, there) = or_false (p x) (any p xs) h in (here, any-false p xs there)

  pub keep-empty : (p : A → Bool) (xs : List A) → keep p xs ≡ [] → All (λ x. p x ≡ false) xs
  keep-empty p [] h = tt
  keep-empty p (x ∷ xs) h = elim (Bool-cases (p x)) [
    | inl kept ↦ absurd (cc (subst (λ b. (if b then x ∷ keep p xs else keep p xs) ≡ []) kept h))
    | inr dropped ↦ (
      dropped,
      keep-empty p xs (subst (λ b. (if b then x ∷ keep p xs else keep p xs) ≡ []) dropped h),
    )
  ]

  pub length-append : (xs ys : List A) → length (xs ++ ys) ≡ length xs + length ys
  length-append [] ys = omega arith
  length-append (x ∷ xs) ys = omega (arith, length-append xs ys)

-- x in xs, for texts
abbrev pub member : String → List String → Bool
member x xs = any (λ y. y == x) xs

pub some_inj {ℓ} : {A : Type ℓ} {a b : A} → some a ≡ some b → a ≡ b
some_inj h = cc

-- What holds of each text of a list holds of its members.
pub member-elim {ℓ} :
    (P : String → Type ℓ) (s : String) (xs : List String) → member s xs ≡ true → All P xs → P s
member-elim P s [] h holds = absurd (cc h)
member-elim P s (x ∷ xs) h holds = elim (Bool-cases (x == s)) [
  | inl same ↦ subst P ((eq_iff x s).0 same) holds.0
  | inr other ↦ member-elim P s xs (subst (λ b. (b || member s xs) ≡ true) other h) holds.1
]

pub All-map {ℓ κ μ} :
    {A : Type ℓ} {B : Type κ} (P : B → Type μ) (f : A → B)
    → ((a : A) → P (f a))
    → (xs : List A) → All P (map f xs)
All-map P f h [] = tt
All-map P f h (x ∷ xs) = (h x, All-map P f h xs)

pub length-map {ℓ κ} :
    {A : Type ℓ} {B : Type κ} (f : A → B) (xs : List A) → length (map f xs) ≡ length xs
length-map f [] = refl
length-map f (x ∷ xs) = ap suc (length-map f xs)
