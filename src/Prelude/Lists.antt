-- ===== src/Prelude/Lists.antt =====
-- Byte strings: lists measured and indexed by native numbers.
use Prim.Native.Nat.{ℕ, zero, suc, ◌+◌, ◌-◌, ◌≤◌, ◌<◌, min, compare, Ordering}
use Prim.Native.Char.{code}
use Prim.Native.String.{String}
use mathlib.Core.Path.{◌≡◌, refl, ap}
use mathlib.Core.Bool.{Bool, true, false, ◌&&◌}
use mathlib.Core.List.{List, [], ◌∷◌, ◌++◌}
use native.Mathlib.Omega.{arith}

module _ {ℓ} {A : Type ℓ} where
  abbrev pub length : List A → ℕ
  length [] = 0
  length (x ∷ xs) = suc (length xs)

  abbrev pub get_or : List A → ℕ → A → A
  get_or [] i d = d
  get_or (x ∷ xs) zero d = x
  get_or (x ∷ xs) (suc i) d = get_or xs i d

  abbrev pub take : ℕ → List A → List A
  take zero xs = []
  take (suc n) [] = []
  take (suc n) (x ∷ xs) = x ∷ take n xs

  abbrev pub drop : ℕ → List A → List A
  drop zero xs = xs
  drop (suc n) [] = []
  drop (suc n) (x ∷ xs) = drop n xs

  abbrev pub replicate : ℕ → A → List A
  replicate zero a = []
  replicate (suc n) a = a ∷ replicate n a

  pub length-append : (xs ys : List A) → length (xs ++ ys) ≡ length xs + length ys
  length-append [] ys = omega arith
  length-append (x ∷ xs) ys = omega (arith, length-append xs ys)

  pub length-take : (n : ℕ) (xs : List A) → length (take n xs) ≡ min n (length xs)
  length-take zero xs = omega arith
  length-take (suc n) [] = omega arith
  length-take (suc n) (x ∷ xs) = omega (arith, length-take n xs)

  pub length-drop : (n : ℕ) (xs : List A) → length (drop n xs) ≡ length xs - n
  length-drop zero xs = omega arith
  length-drop (suc n) [] = omega arith
  length-drop (suc n) (x ∷ xs) = omega (arith, length-drop n xs)

  pub length-replicate : (n : ℕ) (a : A) → length (replicate n a) ≡ n
  length-replicate zero a = refl
  length-replicate (suc n) a = ap suc (length-replicate n a)

  pub take-append : (xs ys : List A) → take (length xs) (xs ++ ys) ≡ xs
  take-append [] ys = refl
  take-append (x ∷ xs) ys = ap (◌∷◌ x) (take-append xs ys)

  pub drop-append : (xs ys : List A) → drop (length xs) (xs ++ ys) ≡ ys
  drop-append [] ys = refl
  drop-append (x ∷ xs) ys = drop-append xs ys

  pub take_all : (n : ℕ) (xs : List A) → length xs ≤ n → take n xs ≡ xs
  take_all zero [] h = refl
  take_all zero (x ∷ xs) h = absurd (omega arith)
  take_all (suc n) [] h = refl
  take_all (suc n) (x ∷ xs) h = ap (◌∷◌ x) (take_all n xs (omega arith))

-- Strings of the source are sequences of bytes; a literal is ASCII.
abbrev pub Bytes : Type 0
Bytes = List ℕ

abbrev pub codes : String → Bytes
codes String.[] = []
codes (String.◌∷◌ c s) = code c ∷ codes s

abbrev pub bytes_eq : Bytes → Bytes → Bool
bytes_eq [] [] = true
bytes_eq [] (y ∷ ys) = false
bytes_eq (x ∷ xs) [] = false
bytes_eq (x ∷ xs) (y ∷ ys) = elim (compare x y) [ Ordering.eq ↦ true | _ ↦ false ] && bytes_eq xs ys

-- What a C function reads from a buffer: the bytes before the first NUL.
abbrev pub until_nul : Bytes → Bytes
until_nul [] = []
until_nul (zero ∷ xs) = []
until_nul (suc c ∷ xs) = suc c ∷ until_nul xs

-- No byte of a C string is NUL.
abbrev pub IsText : Bytes → Type 0
IsText [] = Unit {0}
IsText (zero ∷ s) = ⊥
IsText (suc c ∷ s) = IsText s

pub bytes_eq→≡ : (xs ys : Bytes) → bytes_eq xs ys ≡ true → xs ≡ ys
bytes_eq→≡ [] [] h = refl
bytes_eq→≡ [] (y ∷ ys) h = cc
bytes_eq→≡ (x ∷ xs) [] h = cc
bytes_eq→≡ (x ∷ xs) (y ∷ ys) h = ground (arith, bytes_eq→≡ xs ys)

pub bytes_eq_refl : (xs : Bytes) → bytes_eq xs xs ≡ true
bytes_eq_refl [] = refl
bytes_eq_refl (x ∷ xs) = ground (arith, bytes_eq_refl xs)

-- `dst` with `src` written from index `i` on; what would fall behind its end is not written.
abbrev pub write_at : Bytes → ℕ → Bytes → Bytes
write_at [] i src = []
write_at (x ∷ xs) zero [] = x ∷ xs
write_at (x ∷ xs) zero (c ∷ src) = c ∷ write_at xs zero src
write_at (x ∷ xs) (suc i) src = x ∷ write_at xs i src

pub length-write_at : (dst : Bytes) (i : ℕ) (src : Bytes) → length (write_at dst i src) ≡ length dst
length-write_at [] i src = refl
length-write_at (x ∷ xs) zero [] = refl
length-write_at (x ∷ xs) zero (c ∷ src) = ap suc (length-write_at xs zero src)
length-write_at (x ∷ xs) (suc i) src = ap suc (length-write_at xs i src)

-- A write that fits stands behind the bytes before it.
pub take-write_at :
    (dst : Bytes) (i : ℕ) (src : Bytes) (n : ℕ)
    → n ≡ i + length src
    → n ≤ length dst
    → take n (write_at dst i src) ≡ take i dst ++ src
take-write_at [] zero [] zero e h = refl
take-write_at [] zero [] (suc n) e h = absurd (omega arith)
take-write_at [] zero (c ∷ src) n e h = absurd (omega arith)
take-write_at [] (suc i) src n e h = absurd (omega arith)
take-write_at (x ∷ xs) zero [] zero e h = refl
take-write_at (x ∷ xs) zero [] (suc n) e h = absurd (omega arith)
take-write_at (x ∷ xs) zero (c ∷ src) zero e h = absurd (omega arith)
take-write_at (x ∷ xs) zero (c ∷ src) (suc n) e h =
    ap (◌∷◌ c) (take-write_at xs zero src n (omega arith) (omega arith))
take-write_at (x ∷ xs) (suc i) src zero e h = absurd (omega arith)
take-write_at (x ∷ xs) (suc i) src (suc n) e h =
    ap (◌∷◌ x) (take-write_at xs i src n (omega arith) (omega arith))

pub until_nul-replicate : (n : ℕ) → until_nul (replicate n 0) ≡ []
until_nul-replicate zero = refl
until_nul-replicate (suc n) = refl

-- A text that fits with its terminator is read back from a buffer.
pub until_nul-write_at :
    (text d : Bytes)
    → IsText text
    → length text < length d
    → until_nul (write_at d 0 (text ++ 0 ∷ [])) ≡ text
until_nul-write_at text [] t h = absurd (omega arith)
until_nul-write_at [] (x ∷ d) t h = refl
until_nul-write_at (zero ∷ text) (x ∷ d) t h = absurd t
until_nul-write_at (suc c ∷ text) (x ∷ d) t h =
    ap (◌∷◌ (suc c)) (until_nul-write_at text d t (omega arith))

abbrev pub All {ℓ κ} : {A : Type ℓ} → (A → Type κ) → List A → Type κ
All P [] = Unit
All P (x ∷ xs) = P x × All P xs
