-- ===== src/Base/Outcome.antt =====
-- The outcome of a run of C code: a value, or the undefined behaviour that it meets, or the end of
-- the fuel that bounds a loop of the model.
use mathlib.Core.Bool.{Bool, true, false}
use reflect_c.Base.Tests.{if◌then◌else◌}
use Prim.Native.Nat.{ℕ, zero, suc, ◌+◌, ◌≤◌}
use mathlib.Core.Path.{◌≡◌, refl, subst}
use native.Mathlib.Omega.{arith}
use mathlib.Core.Option.{Option, none, some}

pub data Fault : Type 0 where
  out_of_bounds : Fault
  uninitialised : Fault
  null_pointer : Fault
  division_by_zero : Fault
  wrong_member : Fault
  trap_value : Fault
  out_of_fuel : Fault

-- `fault` ends the run, whatever was to follow.
pub data Run {ℓ} (V : Type ℓ) : Type ℓ where
  fault : Fault → Run V
  ok : V → Run V

-- The value of an option, or a fault.
abbrev pub or_fault {ℓ} : {V : Type ℓ} → Fault → Option V → Run V
or_fault what none = fault what
or_fault what (some v) = ok v

-- The run meets no fault, and its value satisfies `Good`.
abbrev pub Returns {κ ℓ} : {V : Type κ} → Run V → (V → Type ℓ) → Type (κ ⊔ ℓ)
Returns {V} run Good = (v : V) × (run ≡ ok v) × Good v

infixl 5 ◌>>=◌
abbrev pub ◌>>=◌ {κ ℓ} : {V : Type κ} {W : Type ℓ} → Run V → (V → Run W) → Run W
fault what >>= next = fault what
ok v >>= next = next v

-- A run on fuel ends: from some amount on, it has one value.
pub record Terminates {ℓ} {V : Type ℓ} (run : ℕ → Run V) : Type ℓ where
  pub value : V
  pub bound : ℕ
  pub ends : (fuel : ℕ) → bound ≤ fuel → run fuel ≡ ok value

pub Terminates-ok {ℓ} : {V : Type ℓ} (v : V) → Terminates (λ fuel. ok v)
Terminates-ok v = record { value = v; bound = 0; ends = λ fuel h. refl }

pub Terminates-bind {κ ℓ} :
    {V : Type κ} {W : Type ℓ} {run : ℕ → Run V} {next : V → ℕ → Run W}
    → Terminates run
    → ((v : V) → Terminates (next v))
    → Terminates (λ fuel. run fuel >>= λ v. next v fuel)
Terminates-bind first second =
    let then_ = second first.value in
    record {
      value = then_.value;
      bound = first.bound + then_.bound;
      ends = λ fuel h. rw (first.ends fuel (omega arith)) (then_.ends fuel (omega arith));
    }

-- A unit of fuel more or less.
pub Terminates-suc {ℓ} :
    {V : Type ℓ} {run : ℕ → Run V} → Terminates run → Terminates (λ fuel. run (suc fuel))
Terminates-suc t = record {
  value = t.value;
  bound = t.bound;
  ends = λ fuel h. t.ends (suc fuel) (omega arith);
}

pub Terminates-pred {ℓ} :
    {V : Type ℓ} {run : ℕ → Run V} → Terminates (λ fuel. run (suc fuel)) → Terminates run
Terminates-pred {run} t = record {
  value = t.value;
  bound = suc t.bound;
  ends = λ fuel h. from_suc fuel h;
}
  where
    from_suc : (fuel : ℕ) → suc t.bound ≤ fuel → run fuel ≡ ok t.value
    from_suc zero h = absurd (omega arith)
    from_suc (suc fuel) h = t.ends fuel (omega arith)

-- The value satisfies `P`, if the run meets no fault.
pub data After {ℓ κ} {A : Type ℓ} (P : A → Type κ) : Run A → Type (ℓ ⊔ κ) where
  reached : {a : A} → P a → After P (ok a)
  stopped : {e : Fault} → After P (fault e)

pub After-bind {ℓ ℓ' κ κ'} :
    {A : Type ℓ} {B : Type ℓ'} {P : A → Type κ} {Q : B → Type κ'} {r : Run A} {f : A → Run B}
    → After P r
    → ((a : A) → P a → After Q (f a))
    → After Q (r >>= f)
After-bind (reached h) k = k _ h
After-bind stopped k = stopped

pub After-if {ℓ κ} :
    {A : Type ℓ} {P : A → Type κ} (b : Bool) {r s : Run A}
    → After P r
    → After P s
    → After P (if b then r else s)
After-if true h k = h
After-if false h k = k

-- Nothing is asked of the value.
pub After-any {ℓ} : {A : Type ℓ} (r : Run A) → After (λ a. Unit {0}) r
After-any (ok a) = reached tt
After-any (fault e) = stopped

pub After-ok {ℓ κ} : {A : Type ℓ} {P : A → Type κ} {r : Run A} {a : A} → r ≡ ok a → After P r → P a
After-ok {P} {a} e (reached {a = b} h) = let same : b ≡ a = cc in subst P same h
After-ok e stopped = cc

pub After-map {ℓ κ} :
    {A : Type ℓ} {P Q : A → Type κ} {r : Run A} → ((a : A) → P a → Q a) → After P r → After Q r
After-map k (reached h) = reached (k _ h)
After-map k stopped = stopped

pub After-both {ℓ κ κ'} :
    {A : Type ℓ} {P : A → Type κ} {Q : A → Type κ'} {r : Run A}
    → After P r
    → After Q r
    → After (λ a. P a × Q a) r
After-both {Q} (reached h) k = reached (h, After-ok refl k)
After-both stopped k = stopped

-- The run ends, and its value satisfies `P`.
abbrev pub Settles {ℓ κ} : {V : Type ℓ} → (ℕ → Run V) → (V → Type κ) → Type (ℓ ⊔ κ)
Settles run P = (t : Terminates run) × P t.value

pub Settles-After {ℓ κ} :
    {V : Type ℓ} {P : V → Type κ} {run : ℕ → Run V}
    → Terminates run
    → ((fuel : ℕ) → After P (run fuel))
    → Settles run P
Settles-After t after = (t, After-ok (t.ends t.bound (omega arith)) (after t.bound))
