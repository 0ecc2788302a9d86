-- ===== src/Prelude/Result.antt =====
-- Python exceptions as values: a call that may raise returns a `Result`, and a method that also
-- changes its object returns the object beside it, since what was written before a raise stays.
use mathlib.Core.Path.{◌≡◌, refl, subst}
use mathlib.Core.Logic.{◌⊎◌, inl, inr}
use mathlib.Core.Bool.{Bool, true, false}
use reqable_mcp.Prelude.Tests.{if◌then◌else◌}

-- The exception classes that the modelled code raises or lets through, without their messages.
pub data Error : Type 0 where
  value_error type_error os_error struct_error index_error invalid_message unicode_error
        attribute_error runtime_error overflow_error database_error eof_error zlib_error :
      Error

-- What a call that may raise gives.
pub data Result {ℓ} (R : Type ℓ) : Type ℓ where
  err : Error → Result R
  ok : R → Result R

infixl 5 ◌>>=◌ ◌>>◌
-- `if test: raise x`
abbrev pub raise_if : Bool → Error → Result (Unit {0})
raise_if test x = if test then err x else ok tt

-- the statements after a check, which are not reached if it raises
abbrev pub ◌>>◌ {κ} : {S : Type κ} → Result (Unit {0}) → Result S → Result S
err x >> rest = err x
ok _ >> rest = rest

abbrev pub ◌>>=◌ {ℓ κ} :
    {R : Type ℓ} {S : Type κ} (call : Result R) (rest : R → Result S) → Result S
err x >>= rest = err x
ok r >>= rest = rest r

-- A call whose continuation returned has itself returned.
pub >>=-eq-ok {ℓ κ} :
    {R : Type ℓ} {S : Type κ} (call : Result R) (rest : R → Result S) {s : S}
    → (call >>= rest) ≡ ok s
    → (r : R) × (call ≡ ok r) × (rest r ≡ ok s)
>>=-eq-ok (err x) rest returned = cc
>>=-eq-ok (ok r) rest returned = (r, refl, returned)

pub >>-eq-ok {κ} :
    {S : Type κ} (check : Result (Unit {0})) (rest : Result S) {s : S}
    → (check >> rest) ≡ ok s
    → (check ≡ ok tt) × (rest ≡ ok s)
>>-eq-ok (err x) rest returned = cc
>>-eq-ok (ok _) rest returned = (refl, returned)

pub Result-cases {ℓ} :
    {A : Type ℓ} (r : Result A) → ((a : A) × (r ≡ ok a)) ⊎ ((e : Error) × (r ≡ err e))
Result-cases (ok a) = inl (a, refl)
Result-cases (err e) = inr (e, refl)

-- A chain that went past a raise had its test false.
pub raise_if-eq-ok {ℓ} :
    {B : Type ℓ} (test : Bool) (e : Error) (rest : Result B) {b : B}
    → (raise_if test e >> rest) ≡ ok b
    → (test ≡ false) × (rest ≡ ok b)
raise_if-eq-ok true e rest h = cc
raise_if-eq-ok false e rest h = (refl, h)

pub raise_if-false : (test : Bool) (e : Error) → raise_if test e ≡ ok tt → test ≡ false
raise_if-false true e h = cc
raise_if-false false e h = refl

abbrev pub is_ok {ℓ} : {A : Type ℓ} → Result A → Bool
is_ok (ok a) = true
is_ok (err e) = false

pub ok-inj {ℓ} : {A : Type ℓ} (a b : A) → Path (Result A) (ok a) (ok b) → a ≡ b
ok-inj a b h = cc

-- what holds of a result that is there
abbrev pub OnOk {ℓ κ} : {A : Type ℓ} → (A → Type κ) → Result A → Type κ
OnOk P (err x) = Unit
OnOk P (ok a) = P a

pub OnOk-bind {ℓ κ ι} :
    {A : Type ℓ} {B : Type κ} (P : B → Type ι) (r : Result A) (rest : A → Result B)
    → ((a : A) → OnOk P (rest a))
    → OnOk P (r >>= rest)
OnOk-bind P (err x) rest h = tt
OnOk-bind P (ok a) rest h = h a

pub OnOk-elim {ℓ κ} :
    {A : Type ℓ} (P : A → Type κ) (r : Result A) (a : A) → OnOk P r → r ≡ ok a → P a
OnOk-elim P (err x) a h e = absurd (cc)
OnOk-elim P (ok b) a h e = subst P (ok-inj b a e) h

pub OnOk-then {ℓ κ ι υ} :
    {A : Type ℓ} {B : Type κ} (Q : A → Type υ) (P : B → Type ι) (r : Result A) (rest : A → Result B)
    → OnOk Q r
    → ((a : A) → Q a → OnOk P (rest a))
    → OnOk P (r >>= rest)
OnOk-then Q P (err x) rest h k = tt
OnOk-then Q P (ok a) rest h k = k a h

-- a result is what it is
pub OnOk-self {ℓ} : {A : Type ℓ} (r : Result A) → OnOk (λ a. r ≡ ok a) r
OnOk-self (err x) = tt
OnOk-self (ok a) = refl
