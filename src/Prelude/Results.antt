-- ===== src/Prelude/Results.antt =====
-- The outcome of a Python call: a value, or the exception that it raised.
use mathlib.Core.Path.{◌≡◌, refl, subst}
use native.Mathlib.Omega.{arith}
use mathlib.Core.Bool.{Bool, true, false}
use mathlib.Core.Option.{Option, none, some}
use mathlib.Core.List.{List, [], ◌∷◌}
use smd_web_hmi.Prelude.Tests.{if◌then◌else◌}
use smd_web_hmi.Prelude.Lists.{length, last?}

pub data Result {ℓ κ} (E : Type κ) (A : Type ℓ) : Type (ℓ ⊔ κ) where
  ok : A → Result E A
  err : E → Result E A

-- A row of `if test: raise error` statements: the error of the first test that holds.
abbrev pub raise_first {ℓ} : {E : Type ℓ} → List (Bool × E) → Option E
raise_first [] = none
raise_first ((test, e) ∷ rest) = if test then some e else raise_first rest

infixl 5 ◌>>=◌ ◌>>◌
-- `if not test: raise error`
abbrev pub guard {μ} : {E : Type μ} → Bool → E → Result E (Unit {0})
guard test error = if test then ok tt else err error

-- What follows a call: it is not reached when the call raises.
abbrev pub ◌>>=◌ {ℓ κ μ} :
    {E : Type μ} {A : Type ℓ} {B : Type κ} → Result E A → (A → Result E B) → Result E B
err error >>= next = err error
ok value >>= next = next value

abbrev pub ◌>>◌ {ℓ μ} : {E : Type μ} {B : Type ℓ} → Result E (Unit {0}) → Result E B → Result E B
check >> rest = check >>= λ _. rest

-- `for x in xs: ys.append(f(x))`
abbrev pub traverse {ℓ κ μ} :
    {E : Type μ} {A : Type ℓ} {B : Type κ} → (A → Result E B) → List A → Result E (List B)
traverse f [] = ok []
traverse f (x ∷ xs) = let rest = traverse f xs in f x >>= λ y. rest >>= λ ys. ok (y ∷ ys)

-- A chain that returns has a first call that returns.
pub >>=-ok {ℓ κ μ} :
    {E : Type μ} {A : Type ℓ} {B : Type κ} (call : Result E A) (next : A → Result E B) {result : B}
    → (call >>= next) ≡ ok result
    → (value : A) × (call ≡ ok value) × (next value ≡ ok result)
>>=-ok (err error) next h = cc
>>=-ok (ok value) next h = (value, refl, h)

pub guard-ok {ℓ μ} :
    {E : Type μ} {B : Type ℓ} (test : Bool) (e : E) (k : Result E B) {b : B}
    → (guard test e >> k) ≡ ok b
    → (test ≡ true) × (k ≡ ok b)
guard-ok true e k h = (refl, h)
guard-ok false e k h = cc

-- The lists have the same length, and each element of one is related to that of the other.
abbrev pub Pairs {ℓ κ} : {A : Type ℓ} {B : Type κ} → (A → B → Type 0) → List A → List B → Type 0
Pairs R [] [] = Unit
Pairs R [] (y ∷ ys) = ⊥
Pairs R (x ∷ xs) [] = ⊥
Pairs R (x ∷ xs) (y ∷ ys) = R x y × Pairs R xs ys

pub Pairs-map {ℓ κ} :
    {A : Type ℓ} {B : Type κ} {R S : A → B → Type 0}
    → ((x : A) (y : B) → R x y → S x y)
    → (xs : List A) (ys : List B) → Pairs R xs ys
    → Pairs S xs ys
Pairs-map f [] [] p = tt
Pairs-map f [] (y ∷ ys) p = elim p [ ]
Pairs-map f (x ∷ xs) [] p = elim p [ ]
Pairs-map f (x ∷ xs) (y ∷ ys) (r, p) = (f x y r, Pairs-map f xs ys p)

pub ok_injective {ℓ μ} :
    {E : Type μ} {A : Type ℓ} {a b : A} → ◌≡◌ {A = Result E A} (ok a) (ok b) → a ≡ b
ok_injective h = ground arith

pub some_injective {ℓ} : {A : Type ℓ} {a b : A} → ◌≡◌ {A = Option A} (some a) (some b) → a ≡ b
some_injective h = ground arith

pub traverse-ok {ℓ} :
    {E : Type 0} {A : Type ℓ} {B : Type 0} (f : A → Result E B) (xs : List A) (ys : List B)
    → traverse f xs ≡ ok ys
    → Pairs (λ x y. f x ≡ ok y) xs ys
traverse-ok f [] [] h = tt
traverse-ok f [] (y ∷ ys) h = cc
traverse-ok f (x ∷ xs) ys h =
    let (y, first, h1) = >>=-ok (f x) (λ y. traverse f xs >>= λ ys. ok (y ∷ ys)) h in
    let (zs, rest, h2) = >>=-ok (traverse f xs) (λ ys. ok (y ∷ ys)) h1 in
    subst (Pairs (λ x y. f x ≡ ok y) (x ∷ xs)) (ok_injective h2) (first, traverse-ok f xs zs rest)

pub Pairs-length {ℓ κ} :
    {A : Type ℓ} {B : Type κ} (R : A → B → Type 0) (xs : List A) (ys : List B)
    → Pairs R xs ys
    → length xs ≡ length ys
Pairs-length R [] [] p = refl
Pairs-length R [] (y ∷ ys) p = elim p [ ]
Pairs-length R (x ∷ xs) [] p = elim p [ ]
Pairs-length R (x ∷ xs) (y ∷ ys) (r, p) = omega (arith, Pairs-length R xs ys p)

pub Pairs-last {ℓ κ} :
    {A : Type ℓ} {B : Type κ} (R : A → B → Type 0) (xs : List A) (ys : List B) {y : B}
    → Pairs R xs ys
    → last? ys ≡ some y
    → (x : A) × (last? xs ≡ some x) × R x y
Pairs-last R [] [] p h = cc
Pairs-last R [] (y ∷ ys) p h = elim p [ ]
Pairs-last R (x ∷ xs) [] p h = elim p [ ]
Pairs-last R (x ∷ []) (y ∷ []) (r, p) h = (x, refl, subst (R x) (some_injective h) r)
Pairs-last R (x ∷ []) (y ∷ y' ∷ ys) (r, p) h = elim p [ ]
Pairs-last R (x ∷ x' ∷ xs) (y ∷ []) (r, p) h = elim p [ ]
Pairs-last R (x ∷ x' ∷ xs) (y ∷ y' ∷ ys) (r, p) h = Pairs-last R (x' ∷ xs) (y' ∷ ys) p h
