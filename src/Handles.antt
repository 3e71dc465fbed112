-- ===== src/Handles.antt =====
-- What the parts hold of each other, a specification: the nodes of the file system and the processes
-- that are open, each as often as it was opened.
use yotos.Base.{
  ℕ, ◌≡◌, refl, inl, inr, Bool, true, false, ◌||◌, Option, none, some, List, [], ◌∷◌, arith, ◌==◌,
  if◌then◌else◌, Bool-cases,
}
use mathlib.Core.Option.{map as map_option}

pub data Handle : Type 0 where
  node process : ℕ → Handle

abbrev pub same : Handle → Handle → Bool
same (node n) (node m) = n == m
same (process n) (process m) = n == m
same _ _ = false

-- What is open, as often as it was opened; `none` once something was used or given back that was
-- not open.
abbrev pub Held : Type 0
Held = Option (List Handle)

pub remove : Handle → List Handle → Held
remove a [] = none
remove a (b ∷ l) =
    let rest = remove a l in if same a b then some l else map_option (λ r. b ∷ r) rest

pub is_open : Handle → List Handle → Bool
is_open a [] = false
is_open a (b ∷ l) = same a b || is_open a l

-- The call returned `n`; 0 is the null pointer.
pub taken : ℕ → Handle → Held → Held
taken n a held = if n == 0 then held else map_option (λ l. a ∷ l) held

pub used : Handle → Held → Held
unfolding is_open
used a none = none
used a (some l) = if is_open a l then some l else none

pub given_back : Handle → Held → Held
unfolding remove
given_back a none = none
given_back a (some l) = remove a l

pub same_self : (a : Handle) → same a a ≡ true
same_self (node n) = ground arith
same_self (process n) = ground arith

pub used-open :
    (a : Handle) (l : List Handle) (h : Held) → h ≡ some (a ∷ l) → used a h ≡ some (a ∷ l)
unfolding used
used-open a l h e = rw (e, same_self a) refl

pub given_back-open :
    (a : Handle) (l : List Handle) (h : Held) → h ≡ some (a ∷ l) → given_back a h ≡ some l
unfolding given_back
given_back-open a l h e = rw (e, same_self a) refl

-- The node that was opened before the last one is given back.
pub given_back-second :
    (m n : ℕ) (l : List Handle) (h : Held)
    → h ≡ some (node m ∷ node n ∷ l)
    → given_back (node n) h ≡ some (node m ∷ l)
unfolding given_back
given_back-second m n l h e = rw e (elim (Bool-cases (n == m)) [
  | inl k ↦ let eq : n ≡ m = ground (arith, k) in rw (k, eq) refl
  | inr k ↦ rw (k, same_self (node n)) refl
])

pub given_back-process :
    (n p : ℕ) (l : List Handle)
    → given_back (node n) (some (process p ∷ node n ∷ l)) ≡ some (process p ∷ l)
unfolding given_back
given_back-process n p l = rw (same_self (node n)) refl

pub taken-null : (n : ℕ) (a : Handle) (h : Held) → (n == 0) ≡ true → taken n a h ≡ h
unfolding taken
taken-null n a h e = rw e refl

pub taken-open :
    (n : ℕ) (a : Handle) (l : List Handle) (h : Held)
    → (n == 0) ≡ false
    → h ≡ some l
    → taken n a h ≡ some (a ∷ l)
unfolding taken
taken-open n a l h e k = rw (e, k) refl
