-- ===== src/Trie/Paths.antt =====
-- Paths through a trie: a key in hexadecimal form ends in the terminator and has it nowhere else;
-- and how two keys stand to each other.
use mathlib.Core.List.{append-nil}
use meta_co_sign.Base.{
  ℕ, ◌<◌, ◌≡◌, ◌≢◌, refl, sym, ap, ◌∙◌, subst, inl, inr, Bool, true, false, Option, none, some, [],
  ◌∷◌, ◌++◌, arith, ◌==◌, ==_iff, if◌then◌else◌, length, take, drop, Bool-cases,
}
use meta_co_sign.Bytes.{Bytes, bytes_eq}
use meta_co_sign.Trie.Nibbles.{prefix_len}

-- `Ends b k c`: behind a path that has met the terminator (`b`) or has not, `k` is a path, and
-- whether it has met the terminator then is `c`.
abbrev pub Ends : Bool → Bytes → Bool → Type 0
Ends b [] c = b ≡ c
Ends true (x ∷ k) c = ⊥
Ends false (x ∷ k) c = (x < 17) × Ends (x == 16) k c

pub Ends-append :
    (b : Bool) (p q : Bytes) (c : Bool) → Ends b (p ++ q) c → (d : Bool) × Ends b p d × Ends d q c
Ends-append b [] q c h = (b, refl, h)
Ends-append true (x ∷ p) q c h = absurd h
Ends-append false (x ∷ p) q c h =
    let (d, front, back) = Ends-append (x == 16) p q c h.1 in (d, (h.0, front), back)

pub append-Ends :
    (b d : Bool) (p q : Bytes) (c : Bool) → Ends b p d → Ends d q c → Ends b (p ++ q) c
append-Ends b d [] q c h k = rw h k
append-Ends true d (x ∷ p) q c h k = absurd h
append-Ends false d (x ∷ p) q c h k = (h.0, append-Ends (x == 16) d p q c h.1 k)

-- A path ends one way.
pub Ends-unique : (b : Bool) (p : Bytes) (c d : Bool) → Ends b p c → Ends b p d → c ≡ d
Ends-unique b [] c d h k = sym h ∙ k
Ends-unique true (x ∷ p) c d h k = absurd h
Ends-unique false (x ∷ p) c d h k = Ends-unique (x == 16) p c d h.1 k.1

-- the rest of a path behind a common front
pub Ends-rest : (b d : Bool) (p q : Bytes) (c : Bool) → Ends b p d → Ends b (p ++ q) c → Ends d q c
Ends-rest b d p q c h k =
    let (e, front, back) = Ends-append b p q c k in
    subst (λ e. Ends e q c) (Ends-unique b p e d front h) back

-- A path that goes on has not met the terminator.
goes_on : (d : Bool) (x : ℕ) (xs : Bytes) (c : Bool) → Ends d (x ∷ xs) c → d ≡ false
goes_on false x xs c h = refl
goes_on true x xs c h = absurd h

pub Ends-front :
    (p : Bytes) (x : ℕ) (xs : Bytes) (c : Bool) → Ends false (p ++ x ∷ xs) c → Ends false p false
Ends-front p x xs c h =
    let (d, front, back) = Ends-append false p (x ∷ xs) c h in
    subst (λ d. Ends false p d) (goes_on d x xs c back) front

-- After the terminator there is nothing.
pub Ends-nil : (q : Bytes) (c : Bool) → Ends true q c → q ≡ []
Ends-nil [] c h = refl
Ends-nil (x ∷ q) c h = absurd h

unfoldable pub strip : Bytes → Bytes → Option Bytes
strip [] k = some k
strip (x ∷ p) [] = none
strip (x ∷ p) (y ∷ k) = let rest = strip p k in if x == y then rest else none

pub strip-append : (p r : Bytes) → strip p (p ++ r) ≡ some r
unfolding strip
strip-append [] r = refl
strip-append (x ∷ p) r = ground (arith, strip-append p r)

pub strip-some : (p k r : Bytes) → strip p k ≡ some r → k ≡ p ++ r
unfolding strip
strip-some [] k r h = ground arith
strip-some (x ∷ p) [] r h = cc
strip-some (x ∷ p) (y ∷ k) r h = ground (arith, strip-some p k r)

-- how two keys `a` and `b` share their beginning
pub data Common (a b : Bytes) : Type 0 where
  covers : (r : Bytes) → a ≡ b ++ r → prefix_len a b ≡ length b → Common a b
  parts :
      (p : Bytes) (x : ℕ) (xs : Bytes) (y : ℕ) (ys : Bytes)
      → x ≢ y
      → a ≡ p ++ x ∷ xs
      → b ≡ p ++ y ∷ ys
      → prefix_len a b ≡ length p
      → Common a b
  ends : (y : ℕ) (ys : Bytes) → b ≡ a ++ y ∷ ys → prefix_len a b ≡ length a → Common a b

common_suc : (x : ℕ) (a b : Bytes) → Common a b → Common (x ∷ a) (x ∷ b)
unfolding prefix_len
common_suc x a b (covers r e l) = covers r (ap (◌∷◌ x) e) (ground arith)
common_suc x a b (parts p u us y ys ne e f l) =
    parts (x ∷ p) u us y ys ne (ap (◌∷◌ x) e) (ap (◌∷◌ x) f) (ground arith)
common_suc x a b (ends y ys e l) = ends y ys (ap (◌∷◌ x) e) (ground arith)

prefix_len-nil : (a : Bytes) → prefix_len a [] ≡ 0
unfolding prefix_len
prefix_len-nil [] = refl
prefix_len-nil (x ∷ a) = refl

pub common : (a b : Bytes) → Common a b
unfolding prefix_len
common a [] = covers a refl (prefix_len-nil a)
common [] (y ∷ b) = ends y b refl refl
common (x ∷ a) (y ∷ b) = elim (Bool-cases (x == y)) [
  | inl same ↦
      subst (λ z. Common (x ∷ a) (z ∷ b)) ((==_iff x y).0 same) (common_suc x a b (common a b))
  | inr differ ↦ parts [] x a y b (λ e. ground arith) refl refl (rw differ refl)
]

-- the lists on either side of a front of a known length
pub take_front : (p r : Bytes) → take (length p) (p ++ r) ≡ p
take_front [] r = refl
take_front (x ∷ p) r = ap (◌∷◌ x) (take_front p r)

pub drop_front : (p r : Bytes) → drop (length p) (p ++ r) ≡ r
drop_front [] r = refl
drop_front (x ∷ p) r = drop_front p r

pub strip-front : (p q r : Bytes) → strip (p ++ q) (p ++ r) ≡ strip q r
unfolding strip
strip-front [] q r = refl
strip-front (x ∷ p) q r = ground (arith, strip-front p q r)

-- A key that does not begin with `p` does not begin with anything that does.
pub strip_longer : (p q k : Bytes) → strip p k ≡ none → strip (p ++ q) k ≡ none
unfolding strip
strip_longer [] q k h = cc
strip_longer (x ∷ p) q [] h = refl
strip_longer (x ∷ p) q (y ∷ k) h = ground (arith, strip_longer p q k)

pub strip_apart :
    (p : Bytes) (x : ℕ) (xs : Bytes) (y : ℕ) (ys : Bytes)
    → (x == y) ≡ false
    → strip (p ++ x ∷ xs) (p ++ y ∷ ys) ≡ none
unfolding strip
strip_apart p x xs y ys h = strip-front p (x ∷ xs) (y ∷ ys) ∙ rw h refl

pub bytes_eq-strip : (p q k : Bytes) → strip p k ≡ none → bytes_eq (p ++ q) k ≡ false
unfolding strip bytes_eq
bytes_eq-strip [] q k h = cc
bytes_eq-strip (x ∷ p) q [] h = refl
bytes_eq-strip (x ∷ p) q (y ∷ k) h = ground (arith, bytes_eq-strip p q k)

pub bytes_eq_heads :
    (x : ℕ) (xs : Bytes) (y : ℕ) (ys : Bytes)
    → (x == y) ≡ false
    → bytes_eq (x ∷ xs) (y ∷ ys) ≡ false
unfolding bytes_eq
bytes_eq_heads x xs y ys h = rw h refl

pub strip_behind :
    (p : Bytes) (x : ℕ) (xs k : Bytes) → strip (p ++ x ∷ xs) (p ++ x ∷ k) ≡ strip xs k
unfolding strip
strip_behind p x xs k =
    let same : (x == x) ≡ true = (==_iff x x).1 refl in
    strip-front p (x ∷ xs) (x ∷ k) ∙ rw same refl

pub bytes_eq_of_strip : (p k : Bytes) → strip p k ≡ none → bytes_eq p k ≡ false
bytes_eq_of_strip p k h = rw (append-nil p) at (bytes_eq-strip p [] k h)

pub ==_false_comm : (x y : ℕ) → (x == y) ≡ false → (y == x) ≡ false
==_false_comm x y h = ground arith
