-- ===== src/Prelude/Effect.antt =====
-- Code that acts on the world `W` outside the program: a call answers and leaves a new world, or
-- `none`, when a loop that waits for the world ran out of the rounds it was given.
use mathlib.Core.Path.{◌≡◌, refl}
use mathlib.Core.Option.{Option, none, some}

abbrev pub Eff : Type 0 → Type 0 → Type 0
Eff W A = W → Option (A × W)

abbrev pub pure : {W A : Type 0} → A → Eff W A
pure a w = some (a, w)

-- The rest of a bind, for the answer of its first part.
abbrev pub continue : {W A B : Type 0} → Option (A × W) → (A → Eff W B) → Option (B × W)
continue none f = none
continue (some (a, w)) f = f a w

infixl 5 ◌>>=◌ ◌>>◌
abbrev pub ◌>>=◌ : {W A B : Type 0} → Eff W A → (A → Eff W B) → Eff W B
◌>>=◌ m f w = continue (m w) f

abbrev pub ◌>>◌ : {W B : Type 0} → Eff W (Unit {0}) → Eff W B → Eff W B
m >> k = m >>= λ _. k

-- A call that always answers.
abbrev pub call : {W A : Type 0} → (W → A × W) → Eff W A
call f w = some (f w)

-- A call made for its effect alone.
abbrev pub act : {W : Type 0} → (W → W) → Eff W (Unit {0})
act f w = some (tt, f w)

-- The world as a value, to read from.
abbrev pub read : {W A : Type 0} → (W → A) → Eff W A
read f w = some (f w, w)

-- Inversion of a bind that answered.
pub continue-some :
    {W A B : Type 0} (o : Option (A × W)) (f : A → Eff W B) {b : B} {w' : W}
    → continue o f ≡ some (b, w')
    → (a : A) × (w : W) × (o ≡ some (a, w)) × (f a w ≡ some (b, w'))
continue-some none f e = cc
continue-some (some (a, w)) f e = (a, w, refl, e)

-- One more step on what has been written so far, unless an earlier one failed.
infixl 5 ◌>=>◌
abbrev pub ◌>=>◌ : {A : Type 0} → Option A → (A → Option A) → Option A
none >=> f = none
some buf >=> f = f buf
