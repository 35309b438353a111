-- ===== src/Common/Monad.antt =====
-- The monad of the driver's functions: a state, an `int` status, and `BUG()`.
-- `ok a s` returns 0 with results `a`, `err e s` returns the error code `e`, both in the state that the
-- function leaves behind; `bug` is a `BUG_ON` that fires or an access through a null pointer.
use mathlib.Core.Path.{◌≡◌, refl}
use mathlib.Core.Bool.{Bool, true, false}
use aws_neuron_driver.Common.Tests.{if◌then◌else◌}

-- The error codes that the driver returns; `minus_one` is a bare -1.
pub data Errno : Type 0 where
  einval enomem eio efault enospc ebusy eacces efbig enodev minus_one one : Errno

pub data Outcome (S A : Type 0) : Type 0 where
  ok : A → S → Outcome S A
  err : Errno → S → Outcome S A
  bug : Outcome S A

abbrev pub M : Type 0 → Type 0 → Type 0
M S A = S → Outcome S A

abbrev pub bind_out : {S A B : Type 0} → Outcome S A → (A → M S B) → Outcome S B
bind_out (ok a s) f = f a s
bind_out (err e s) f = err e s
bind_out bug f = bug

-- What a call chain that succeeds went through.
pub bind_out-ok :
    {S A B : Type 0} (x : Outcome S A) (f : A → M S B) {b : B} {s' : S}
    → bind_out x f ≡ ok b s'
    → (a : A) × (s : S) × (x ≡ ok a s) × (f a s ≡ ok b s')
bind_out-ok (ok a s) f e = (a, s, refl, e)
bind_out-ok (err e s) f h = cc
bind_out-ok bug f h = cc

infixl 5 ◌>>=◌ ◌>>◌
abbrev pub ◌>>=◌ : {S A B : Type 0} → M S A → (A → M S B) → M S B
◌>>=◌ m f s = bind_out (m s) f

abbrev pub ◌>>◌ : {S B : Type 0} → M S (Unit {0}) → M S B → M S B
m >> k = m >>= λ _. k

abbrev pub pure : {S A : Type 0} → A → M S A
pure a s = ok a s

abbrev pub fail : {S A : Type 0} → Errno → M S A
fail e s = err e s

-- `if (test) return -e;`
abbrev pub fail_if : {S : Type 0} → Bool → Errno → M S (Unit {0})
fail_if true e s = err e s
fail_if false e s = ok tt s

-- `BUG_ON(test)`
abbrev pub bug_on : {S : Type 0} → Bool → M S (Unit {0})
bug_on true s = bug
bug_on false s = ok tt s

-- A call whose status the caller does not look at.
abbrev ignore_out : {S : Type 0} → Outcome S (Unit {0}) → Outcome S (Unit {0})
ignore_out (ok a s) = ok tt s
ignore_out (err e s) = ok tt s
ignore_out bug = bug

abbrev pub ignore : {S : Type 0} → M S (Unit {0}) → M S (Unit {0})
ignore m s = ignore_out (m s)

-- `P` of the state that a call leaves behind, whatever it returns.
abbrev pub Leaves {ℓ} : {S A : Type 0} → (S → Type ℓ) → Outcome S A → Type ℓ
Leaves P (ok a s) = P s
Leaves P (err e s) = P s
Leaves P bug = Unit

pub ok-injective : {S A : Type 0} (a b : A) (s t : S) → ok a s ≡ ok b t → (a ≡ b) × (s ≡ t)
ok-injective a b s t e = (cc, cc)

-- A second step after a call.
pub Leaves-bind_out {ℓ} :
    {S A B : Type 0} (P : S → Type ℓ) (x : Outcome S A) (f : A → M S B)
    → ((a : A) (s : S) → P s → Leaves P (f a s))
    → Leaves P x
    → Leaves P (bind_out x f)
Leaves-bind_out P (ok a s) f h p = h a s p
Leaves-bind_out P (err e s) f h p = p
Leaves-bind_out P bug f h p = tt

-- The call returns 0, and leaves a state with `P`.
abbrev pub Returns : {S A : Type 0} → (S → Type 0) → Outcome S A → Type 0
Returns P (ok a s) = P s
Returns P (err e s) = ⊥
Returns P bug = ⊥

pub Returns-bind_out :
    {S A B : Type 0} (P Q : S → Type 0) (x : Outcome S A) (f : A → M S B)
    → ((a : A) (s : S) → P s → Returns Q (f a s))
    → Returns P x
    → Returns Q (bind_out x f)
Returns-bind_out P Q (ok a s) f h p = h a s p
Returns-bind_out P Q (err e s) f h p = absurd p
Returns-bind_out P Q bug f h p = absurd p

pub Returns-if :
    {S A : Type 0} (P : S → Type 0) (b : Bool) (x y : Outcome S A)
    → Returns P x
    → Returns P y
    → Returns P (if b then x else y)
Returns-if P true x y p q = p
Returns-if P false x y p q = q

pub Returns-if_then :
    {S A : Type 0} (P : S → Type 0) (b : Bool) (x y : Outcome S A)
    → b ≡ true
    → Returns P x
    → Returns P (if b then x else y)
Returns-if_then P true x y e p = p
Returns-if_then P false x y e p = absurd (cc e)

pub Returns-ignore :
    {S : Type 0} (P : S → Type 0) (m : M S (Unit {0})) (s : S)
    → Returns P (m s)
    → Returns P (ignore m s)
Returns-ignore {S = S} P m s h = by_outcome (m s) h
  where
    by_outcome : (x : Outcome S (Unit {0})) → Returns P x → Returns P (ignore_out x)
    by_outcome (ok a t) h = h
    by_outcome (err e t) h = absurd h
    by_outcome bug h = absurd h

pub Returns-map :
    {S A : Type 0} (P Q : S → Type 0) (x : Outcome S A)
    → ((s : S) → P s → Q s)
    → Returns P x
    → Returns Q x
Returns-map P Q (ok a s) f h = f s h
Returns-map P Q (err e s) f h = absurd h
Returns-map P Q bug f h = absurd h

-- From every state with `P` the call returns, and leaves `Q`.
pub record Runs {S A : Type 0} (P Q : S → Type 0) (f : M S A) : Type 0 where
  pub run : (s : S) → P s → Returns Q (f s)

pub Runs-then :
    {S B : Type 0} {P Q R : S → Type 0} {f : M S (Unit {0})} {g : M S B}
    → Runs P Q f
    → Runs Q R g
    → Runs P R (f >> g)
Runs-then {Q = Q} {R = R} {f = f} {g = g} hf hg = record {
  run = λ s p. Returns-bind_out Q R (f s) (λ a. g) (λ a t q. hg.run t q) (hf.run s p);
}

-- A call that returns, with the state that it leaves.
pub Returns-ok :
    {S : Type 0} (P : S → Type 0) (x : Outcome S (Unit {0}))
    → Returns P x
    → (s : S) × (x ≡ ok tt s) × P s
Returns-ok P (ok tt s) p = (s, refl, p)
Returns-ok P (err e s) p = absurd p
Returns-ok P bug p = absurd p
