-- ===== src/ServerSocket/Owned.antt =====
-- The descriptors that a program owns: each is open once, and no other was opened or closed.
use cpp_socket_library.Prelude.{
  ◌≡◌, refl, ◌∙◌, Bool, true, false, not, ◌&&◌, ◌||◌, List, [], ◌∷◌, All, ℤ, eq_ℤ, eq_ℤ→≡,
  eq_ℤ_refl, minus_one, arith,
}
use cpp_socket_library.Errors.{is_invalid_socket}
use cpp_socket_library.System.Table.{SameTable, Opens}
use cpp_socket_library.ServerSocket.{Closes}

abbrev pub is_in : ℤ → List ℤ → Bool
is_in d [] = false
is_in d (x ∷ xs) = eq_ℤ d x || is_in d xs

abbrev pub Distinct : List ℤ → Type 0
Distinct [] = Unit {0}
Distinct (x ∷ xs) = (is_in x xs ≡ false) × Distinct xs

-- `ys` is `xs` without the entry `x` at one place.
pub data Taken (x : ℤ) : List ℤ → List ℤ → Type 0 where
  here : {xs : List ℤ} → Taken x (x ∷ xs) xs
  there : {y : ℤ} {xs ys : List ℤ} → Taken x xs ys → Taken x (y ∷ xs) (y ∷ ys)

is_in_of_Taken : {x : ℤ} {xs ys : List ℤ} → Taken x xs ys → is_in x xs ≡ true
is_in_of_Taken {x} (here {xs}) = ground (arith, eq_ℤ_refl x)
is_in_of_Taken (there t) = ground (arith, is_in_of_Taken t)

is_in-Taken :
    {x : ℤ} {xs ys : List ℤ}
    → Taken x xs ys
    → Distinct xs
    → (d : ℤ) → is_in d ys ≡ (not (eq_ℤ d x) && is_in d xs)
is_in-Taken {x} (here {xs}) (new, rest) d = ground (arith, new, eq_ℤ→≡ d x)
is_in-Taken {x} (there {y} {xs} {ys} t) (new, rest) d =
    ground (arith, new, is_in-Taken t rest d, is_in_of_Taken t, eq_ℤ→≡ d x, eq_ℤ→≡ d y)

Distinct-Taken : {x : ℤ} {xs ys : List ℤ} → Taken x xs ys → Distinct xs → Distinct ys
Distinct-Taken here (new, rest) = rest
Distinct-Taken (there {y} t) (new, rest) =
    (ground (arith, new, is_in-Taken t rest y), Distinct-Taken t rest)

All-Taken : (P : ℤ → Type 0) {x : ℤ} {xs ys : List ℤ} → Taken x xs ys → All P xs → All P ys × P x
All-Taken P here (p, rest) = (rest, p)
All-Taken P (there t) (p, rest) = let r = All-Taken P t rest in ((p, r.0), r.1)

module _ {W : Type 0} (is_open : W → ℤ → Bool) (start : W) where
  abbrev pub IsNew : ℤ → Type 0
  IsNew d = (is_invalid_socket d ≡ false) × (is_open start d ≡ false)

  -- The descriptors `ds` were opened since `start`, and what was open then still is.
  pub record Owns (ds : List ℤ) (w : W) : Type 0 where
    pub distinct : Distinct ds
    pub fresh : All IsNew ds
    pub table : (d : ℤ) → is_open w d ≡ (is_in d ds || is_open start d)

  pub Owns-same : {ds : List ℤ} {w w' : W} → Owns ds w → SameTable is_open w w' → Owns ds w'
  Owns-same o same = record {
    distinct = o.distinct;
    fresh = o.fresh;
    table = λ d. same d ∙ o.table d;
  }

  pub Owns-Opens :
      (x : ℤ) (ds : List ℤ) {w w' : W} → Owns ds w → Opens is_open x w w' → Owns (x ∷ ds) w'
  Owns-Opens x ds o opens = record {
    distinct = (ground (arith, o.table x, opens.fresh), o.distinct);
    fresh = ((opens.valid, ground (arith, o.table x, opens.fresh)), o.fresh);
    table = λ d. ground (arith, o.table d, opens.opened d);
  }

  pub Owns-Closes :
      {x : ℤ} {ds es : List ℤ} {w w' : W}
      → Taken x ds es
      → Owns ds w
      → Closes is_open x w w'
      → Owns es w'
  Owns-Closes {x} t o closes =
      let new = All-Taken IsNew t o.fresh in
      record {
        distinct = Distinct-Taken t o.distinct;
        fresh = new.0;
        table = λ d.
            ground (arith, closes d, o.table d, is_in-Taken t o.distinct d, new.1.1, eq_ℤ→≡ d x);
      }

  -- Closing the invalid descriptor changes nothing.
  is_in-minus_one : (ds : List ℤ) → All IsNew ds → is_in minus_one ds ≡ false
  is_in-minus_one [] n = refl
  is_in-minus_one (d ∷ ds) ((valid, new), rest) = ground (arith, valid, is_in-minus_one ds rest)

  pub Owns-nothing :
      {ds : List ℤ} {w w' : W}
      → is_open start minus_one ≡ false
      → Owns ds w
      → Closes is_open minus_one w w'
      → Owns ds w'
  Owns-nothing {ds} {w} nothing o closes = Owns-same o (λ d.
      ground (
        arith,
        closes d,
        o.table minus_one,
        is_in-minus_one ds o.fresh,
        nothing,
        eq_ℤ→≡ d minus_one,
      ))

  pub Owns-nil : Owns [] start
  Owns-nil = record { distinct = tt; fresh = tt; table = λ d. refl }
