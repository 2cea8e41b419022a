-- ===== src/Trie/Operations/Steps.antt =====
-- Calls that read the database and keep the tracer: the results of a Go function that returns an
-- error or panics, and of one whose fuel ran out.
use meta_co_sign.Result.{Result, ok, fail, panic}
use meta_co_sign.Trie.Tracer.{Tracer}

-- the only error is `MissingNodeError`
pub data Reply {ℓ} (A : Type ℓ) : Type ℓ where
  done : A → Reply A
  missing_node crashed unfinished : Reply A

-- A node is decoded with no error, or not at all.
unfoldable pub reply_of : {A : Type 0} → Result A → Reply A
reply_of (ok a) = done a
reply_of (fail e) = missing_node
reply_of panic = crashed

abbrev pub Access {ℓ} : Type ℓ → Type ℓ
Access A = Tracer → Reply A × Tracer

abbrev pub return {ℓ} : {A : Type ℓ} → A → Access A
return a t = (done a, t)

abbrev pub next {ℓ κ} :
    {A : Type ℓ} {B : Type κ} → (A → Access B) → Reply A → Tracer → Reply B × Tracer
next k (done a) t = k a t
next k missing_node t = (missing_node, t)
next k crashed t = (crashed, t)
next k unfinished t = (unfinished, t)

infixl 5 ◌>>=◌ ◌>>◌
abbrev pub ◌>>=◌ {ℓ κ} : {A : Type ℓ} {B : Type κ} → Access A → (A → Access B) → Access B
◌>>=◌ m k t = next k (m t).0 (m t).1

abbrev pub ◌>>◌ {ℓ} : {B : Type ℓ} → Access (Unit {0}) → Access B → Access B
m >> k = m >>= λ _. k

-- a change of the tracer
abbrev pub tell : (Tracer → Tracer) → Access (Unit {0})
tell f t = (done tt, f t)

-- `otherwise` where a node is missing
abbrev pub rescue {ℓ κ} :
    {A : Type ℓ} {B : Type κ} → (A → Access B) → Access B → Reply A → Tracer → Reply B × Tracer
rescue k otherwise (done a) t = k a t
rescue k otherwise missing_node t = otherwise t
rescue k otherwise crashed t = (crashed, t)
rescue k otherwise unfinished t = (unfinished, t)

abbrev pub on_missing {ℓ κ} :
    {A : Type ℓ} {B : Type κ} → Access A → (A → Access B) → Access B → Access B
on_missing m k otherwise t = rescue k otherwise (m t).0 (m t).1

-- The call ends without an error, in a value of which `P` holds.
abbrev pub Returns {ℓ} : {A : Type ℓ} → (A → Type 0) → Reply A × Tracer → Type 0
Returns P (done a, t) = P a
Returns P (missing_node, t) = ⊥
Returns P (crashed, t) = ⊥
Returns P (unfinished, t) = ⊥

pub Returns-bind {ℓ κ} :
    {A : Type ℓ} {B : Type κ} (P : A → Type 0) (Q : B → Type 0) (m : Reply A × Tracer)
    (k : A → Access B)
    → Returns P m
    → ((a : A) (t : Tracer) → P a → Returns Q (k a t))
    → Returns Q (next k m.0 m.1)
Returns-bind P Q (done a, t) k h f = f a t h
Returns-bind P Q (missing_node, t) k h f = absurd h
Returns-bind P Q (crashed, t) k h f = absurd h
Returns-bind P Q (unfinished, t) k h f = absurd h

pub Returns-imp {ℓ} :
    {A : Type ℓ} (P Q : A → Type 0) (m : Reply A × Tracer)
    → Returns P m
    → ((a : A) → P a → Q a)
    → Returns Q m
Returns-imp P Q (done a, t) h f = f a h
Returns-imp P Q (missing_node, t) h f = h
Returns-imp P Q (crashed, t) h f = h
Returns-imp P Q (unfinished, t) h f = h

-- If the call ends without an error, `P` holds of the value.
abbrev pub IfDone {ℓ} : {A : Type ℓ} → (A → Type 0) → Reply A × Tracer → Type 0
IfDone P (done a, t) = P a
IfDone P (missing_node, t) = Unit {0}
IfDone P (crashed, t) = Unit {0}
IfDone P (unfinished, t) = Unit {0}

pub IfDone-bind {ℓ κ} :
    {A : Type ℓ} {B : Type κ} (P : A → Type 0) (Q : B → Type 0) (m : Reply A × Tracer)
    (k : A → Access B)
    → IfDone P m
    → ((a : A) (t : Tracer) → P a → IfDone Q (k a t))
    → IfDone Q (next k m.0 m.1)
IfDone-bind P Q (done a, t) k h f = f a t h
IfDone-bind P Q (missing_node, t) k h f = tt
IfDone-bind P Q (crashed, t) k h f = tt
IfDone-bind P Q (unfinished, t) k h f = tt

pub Returns-IfDone {ℓ} :
    {A : Type ℓ} (P : A → Type 0) (m : Reply A × Tracer) → Returns P m → IfDone P m
Returns-IfDone P (done a, t) h = h
Returns-IfDone P (missing_node, t) h = tt
Returns-IfDone P (crashed, t) h = tt
Returns-IfDone P (unfinished, t) h = tt
