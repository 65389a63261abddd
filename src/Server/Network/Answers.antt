-- ===== src/Server/Network/Answers.antt =====
-- Calls of the network thread, src/quic_server.c, that answer, and what holds when they do.
use m_quic.Prelude.{◌⊎◌, inl, inr, arith}
use m_quic.Prelude.{◌≡◌, refl, Bool, true, false}
use m_quic.Prelude.{Option, none, some, if◌then◌else◌}
use m_quic.Prelude.Effect.{Eff, continue}
use m_quic.Server.{Server}
use m_quic.Prelude.{◌∙◌, if-false}

-- The call answered, in a state with the property `P`.
abbrev pub Answers : {W A : Type 0} → (Server W → Type 0) → Option (A × Server W) → Type 0
Answers {W} {A} P o = (a : A) × (s : Server W) × (o ≡ some (a, s)) × P s

-- The call answered.
abbrev pub Ends : {W A : Type 0} → Option (A × W) → Type 0
Ends {W} {A} o = (a : A) × (w : W) × (o ≡ some (a, w))

pub Ends-if :
    {W A : Type 0} (b : Bool) (x y : Option (A × W)) → Ends x → Ends y → Ends (if b then x else y)
Ends-if true x y hx hy = hx
Ends-if false x y hx hy = hy

pub Ends-continue :
    {W A B : Type 0} (o : Option (A × W)) (f : A → Eff W B) (a : A) (w : W)
    → o ≡ some (a, w)
    → Ends (f a w)
    → Ends (continue o f)
Ends-continue o f a w e h = rw e h

pub Ends-or :
    {W A : Type 0} (b : Bool) (a : A) (w : W) (y : Option (A × W))
    → Ends y
    → Ends (if b then some (a, w) else y)
Ends-or true a w y h = (a, w, refl)
Ends-or false a w y h = h

-- The call answered in a state with the property `P`; or it did not answer, which `T` excuses: with
-- `T` empty it answers, with `T` the unit type nothing is said of a call that does not.
pub data Allows {W A : Type 0} (T : Type 0) (P : Server W → Type 0)
    : Option (A × Server W) → Type 0 where
  stuck : T → Allows T P none
  answered : (a : A) (s : Server W) → P s → Allows T P (some (a, s))

pub Allows-of :
    {W A : Type 0} (T : Type 0) (P : Server W → Type 0) (o : Option (A × Server W))
    → Ends o ⊎ T
    → ((a : A) (s : Server W) → o ≡ some (a, s) → P s)
    → Allows T P o
Allows-of T P o (inl (a, s, e)) v = rw e (answered a s (v a s e))
Allows-of T P none (inr t) v = stuck t
Allows-of T P (some (a, s)) (inr t) v = answered a s (v a s refl)

pub Allows-continue :
    {W A B : Type 0} (T : Type 0) (P : Server W → Type 0) (o : Option (A × Server W))
    (f : A → Eff (Server W) B)
    → Allows T P o
    → ((a : A) (s : Server W) → P s → Allows T P (f a s))
    → Allows T P (continue o f)
Allows-continue T P _ f (stuck t) next = stuck t
Allows-continue T P _ f (answered a s v) next = next a s v

pub Allows-if :
    {W A : Type 0} (T : Type 0) (P : Server W → Type 0) (b : Bool) (x y : Option (A × Server W))
    → Allows T P x
    → Allows T P y
    → Allows T P (if b then x else y)
Allows-if T P true x y hx hy = hx
Allows-if T P false x y hx hy = hy

-- With nothing to excuse it, the call answers.
pub Allows-Answers :
    {W A : Type 0} (P : Server W → Type 0) (o : Option (A × Server W)) → Allows ⊥ P o → Answers P o
Allows-Answers P _ (stuck t) = absurd t
Allows-Answers P _ (answered a s v) = (a, s, refl, v)

-- A call that did answer did so in a state with the property.
pub Allows-some :
    {W A : Type 0} (T : Type 0) (P : Server W → Type 0) (o : Option (A × Server W)) (a : A)
    (s : Server W)
    → o ≡ some (a, s)
    → Allows T P o
    → P s
Allows-some T P _ a s e (stuck t) = absurd (ground (arith, e))
Allows-some T P _ a s e (answered a' s' v) = let same : s ≡ s' = ground (arith, e) in rw same v

pub Answers-some :
    {W A : Type 0} (P : Server W → Type 0) (a : A) (s : Server W) → P s → Answers P (some (a, s))
Answers-some P a s v = (a, s, refl, v)

pub Answers-then :
    {W A B : Type 0} (P Q : Server W → Type 0) (o : Option (A × Server W))
    (f : A → Eff (Server W) B)
    → Answers P o
    → ((a : A) (s : Server W) → P s → Answers Q (f a s))
    → Answers Q (continue o f)
Answers-then P Q o f (a, s, e, v) next = rw e (next a s v)

pub Answers-unless :
    {W A : Type 0} (P : Server W → Type 0) (b : Bool) (x y : Option (A × Server W))
    → b ≡ false
    → Answers P y
    → Answers P (if b then x else y)
Answers-unless P b x y off (a, s, e, v) = (a, s, if-false _ _ off ∙ e, v)

pub Answers-either :
    {W A B : Type 0} (P : Server W → Type 0) (o : Option A) (x : Option (B × Server W))
    (f : A → Option (B × Server W))
    → Answers P x
    → ((a : A) → Answers P (f a))
    → Answers P (elim o [ none ↦ x | some a ↦ f a ])
Answers-either P none x f hx hf = hx
Answers-either P (some a) x f hx hf = hf a
