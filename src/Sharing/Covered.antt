-- ===== src/Sharing/Covered.antt =====
-- No descriptor is left open without an object that holds it, whatever is copied.
use cpp_socket_library.Prelude.{
  ℕ, zero, suc, ◌≡◌, refl, ap, sym, ◌∙◌, ◌⊎◌, inl, inr, Bool, true, false, ◌||◌, some, List, [],
  ◌∷◌, ◌==◌, All, ℤ, eq_ℤ, eq_ℤ→≡, minus_one, Bool-cases, Option-cases, arith,
}
use cpp_socket_library.Errors.{get_invalid_socket_value}
use cpp_socket_library.System.Returns
use cpp_socket_library.System.Returns.{Returns, returns}
use cpp_socket_library.System.Ends
use cpp_socket_library.System.Ends.{Ends, returned, threw}
use cpp_socket_library.System.Table.{SameTable, Opens}
use cpp_socket_library.ServerSocket.{Closes}
use cpp_socket_library.ServerSocket.Owned.{is_in}
use cpp_socket_library.ServerSocket.Sessions.{recover-Returns}
use cpp_socket_library.Sharing.{
  SocketClass, SharesDescriptors, Action, construct_one, copy_one, close_one, close_and_assign, nth,
  close_at, act, act_each, close_all,
}

-- `ys` is `xs` with a `y` in the place of an `x`.
data Swapped (x y : ℤ) : List ℤ → List ℤ → Type 0 where
  here : {xs : List ℤ} → Swapped x y (x ∷ xs) (y ∷ xs)
  there : {z : ℤ} {xs ys : List ℤ} → Swapped x y xs ys → Swapped x y (z ∷ xs) (z ∷ ys)

is_in-Swapped :
    {x y : ℤ} {xs ys : List ℤ}
    → Swapped x y xs ys
    → (d : ℤ) → is_in d xs ≡ true
    → eq_ℤ d x ≡ false
    → is_in d ys ≡ true
is_in-Swapped {x} {y} (here {xs}) d h ne = ground arith
is_in-Swapped {x} {y} (there {z} {xs} {ys} s) d h ne = ground (arith, is_in-Swapped s d)

All-Swapped :
    (P : ℤ → Type 0) {x y : ℤ} {xs ys : List ℤ}
    → Swapped x y xs ys
    → P y
    → All P xs
    → All P ys × P x
All-Swapped P here new (p, rest) = ((new, rest), p)
All-Swapped P (there s) new (p, rest) = let r = All-Swapped P s new rest in ((p, r.0), r.1)

module _ {W : Type 0} (is_open : W → ℤ → Bool) (start : W) where
  abbrev IsLater : ℤ → Type 0
  IsLater d = is_open start d ≡ false

  -- What was open at the start still is, and every other open descriptor is one of `ds`, which were
  -- not open at the start.
  pub record Covers (ds : List ℤ) (w : W) : Type 0 where
    pub kept : (d : ℤ) → is_open start d ≡ true → is_open w d ≡ true
    pub covered : (d : ℤ) → is_open w d ≡ true → (is_open start d || is_in d ds) ≡ true
    pub later : All IsLater ds

  pub Covers-nil : Covers [] start
  Covers-nil = record { kept = λ d h. h; covered = λ d h. ground arith; later = tt }

  Covers-same : {ds : List ℤ} {w w' : W} → Covers ds w → SameTable is_open w w' → Covers ds w'
  Covers-same c same = record {
    kept = λ d h. same d ∙ c.kept d h;
    covered = λ d h. c.covered d (sym (same d) ∙ h);
    later = c.later;
  }

  Covers-Opens :
      (x : ℤ) (ds : List ℤ) {w w' : W} → Covers ds w → Opens is_open x w w' → Covers (x ∷ ds) w'
  Covers-Opens x ds {w} {w'} c opens = record {
    kept = λ d h. ground (arith, opens.opened d, c.kept d h);
    covered = λ d h. ground (arith, opens.opened d, c.covered d);
    later = (ground (arith, c.kept x, opens.fresh), c.later);
  }

  Covers-Swapped :
      {x y : ℤ} {ds es : List ℤ} {w w' : W}
      → Swapped x y ds es
      → IsLater y
      → Covers ds w
      → Closes is_open x w w'
      → Covers es w'
  Covers-Swapped {x} {y} {ds} {es} {w} {w'} s new c closes =
      let later = All-Swapped IsLater s new c.later in
      record {
        kept = λ d h. ground (arith, closes d, c.kept d h, later.1, eq_ℤ→≡ d x);
        covered = λ d h. ground (arith, closes d, c.covered d, is_in-Swapped s d);
        later = later.0;
      }

  Covers-tail :
      (x : ℤ) (ds : List ℤ) {w w' : W} → Covers (x ∷ ds) w → Closes is_open x w w' → Covers ds w'
  Covers-tail x ds c closes = record {
    kept = λ d h. ground (arith, closes d, c.kept d h, c.later.0, eq_ℤ→≡ d x);
    covered = λ d h. ground (arith, closes d, c.covered d);
    later = c.later.1;
  }

abbrev pub descriptors : {O : Type 0} → (O → ℤ) → List O → List ℤ
descriptors descriptor [] = []
descriptors descriptor (o ∷ os) = descriptor o ∷ descriptors descriptor os

module _ {W O A : Type 0} (is_open : W → ℤ → Bool) (descriptor : O → ℤ) (c : SocketClass W O A)
    (shares : SharesDescriptors is_open descriptor c) where
  nth-All :
      (P : ℤ → Type 0) (i : ℕ) (os : List O) (o : O)
      → nth i os ≡ some o
      → All P (descriptors descriptor os)
      → P (descriptor o)
  nth-All P i [] o h all = cc
  nth-All P zero (x ∷ os) o h all = let e : x ≡ o = cc in rw (← e) all.0
  nth-All P (suc i) (x ∷ os) o h all = nth-All P i os o h all.1

  -- Nothing happened, or one object was closed and replaced by one with the descriptor `y`.
  abbrev Replaced : ℤ → List O → W → List O → W → Type 0
  Replaced y os w os' w' =
      ((os' ≡ os) × (w' ≡ w))
      ⊎ ((x : ℤ) × Swapped x y (descriptors descriptor os) (descriptors descriptor os')
          × Closes is_open x w w')

  close_at-Replaced :
      (f : O → O) (y : ℤ)
      → ((o : O) → descriptor o ≡ get_invalid_socket_value → descriptor (f o) ≡ y)
      → (i : ℕ) (os : List O) (w : W) → Returns (Replaced y os w) (close_at c i f os w)
  unfolding close_at
  close_at-Replaced f y new i [] w = returns (inl (refl, refl))
  close_at-Replaced f y new zero (o ∷ os) w =
      Returns.bind (shares.closes o w)
        λ o' w' k. returns (inr (descriptor o, rw (new o' k.0) here, k.1))
  close_at-Replaced f y new (suc i) (o ∷ os) w =
      Returns.bind (close_at-Replaced f y new i os w) λ os' w' k. returns (elim k [
        | inl (same, e) ↦ inl (ap (◌∷◌ o) same, e)
        | inr (x, swapped, closes) ↦ inr (x, there swapped, closes)
      ])

  module _ (start : W) (nothing : is_open start get_invalid_socket_value ≡ false) where
    abbrev Holds : List O → W → Type 0
    Holds os w = Covers is_open start (descriptors descriptor os) w

    Holds-Replaced :
        (y : ℤ) (os os' : List O) (w w' : W)
        → IsLater is_open start y
        → Holds os w
        → Replaced y os w os' w'
        → Holds os' w'
    Holds-Replaced y os os' w w' new h (inl (same, e)) = rw (same, e) h
    Holds-Replaced y os os' w w' new h (inr (x, swapped, closes)) =
        Covers-Swapped is_open start swapped new h closes

    act-Holds : (os : List O) (a : Action A) (w : W) → Holds os w → Returns Holds (act c os a w)
    unfolding act
    act-Holds os (construct_one a) w h = recover-Returns Holds os (
        Ends.bind
          (Ends.mono (shares.constructs a w) (λ o w' opens. opens)
            (λ e w' (caught, same). (caught, Covers-same is_open start h same)))
          λ o w' opens. returned (Covers-Opens is_open start (descriptor o) _ h opens))
    act-Holds os (copy_one i) w h = elim (Option-cases (nth i os)) [
      | inl absent ↦ rw absent (returns h)
      | inr (o, found) ↦ rw found (
          returns (record {
            kept = h.kept;
            covered = λ d k. ground (arith, h.covered d k);
            later = (
              rw (shares.copied o) (nth-All (IsLater is_open start) i os o found h.later),
              h.later,
            );
          }))
    ]
    act-Holds os (close_one i) w h =
        Returns.mono (close_at-Replaced (λ o. o) minus_one (λ o k. k) i os w)
          (λ os' w' k. Holds-Replaced minus_one os os' w w' nothing h k)
    act-Holds os (close_and_assign i j) w h = elim (Bool-cases (i == j)) [
      | inl same ↦ rw same (returns h)
      | inr other ↦ rw other (elim (Option-cases (nth j os)) [
        | inl absent ↦ rw absent (returns h)
        | inr (o, found) ↦ rw found (
            Returns.mono
              (close_at-Replaced (λ t. c.assign_from t o) (descriptor o)
                (λ t k. shares.assigned t o) i os w)
              (λ os' w' k.
                Holds-Replaced (descriptor o) os os' w w'
                  (nth-All (IsLater is_open start) j os o found h.later) h k))
      ])
    ]

    act_each-keeps :
        (os : List O) (actions : List (Action A)) (w : W)
        → Holds os w
        → Returns Holds (act_each c os actions w)
    unfolding act_each
    act_each-keeps os [] w h = returns h
    act_each-keeps os (a ∷ rest) w h =
        Returns.bind (act-Holds os a w h) λ os' w' h'. act_each-keeps os' rest w' h'

    close_all-same :
        (os : List O) (w : W)
        → Holds os w
        → Returns (λ u w'. SameTable is_open start w') (close_all c os w)
    unfolding close_all
    close_all-same [] w h = returns (λ d. ground (arith, h.kept d, h.covered d))
    close_all-same (o ∷ os) w h =
        Returns.bind (shares.closes o w)
          λ o' w' k. close_all-same os w' (Covers-tail is_open start (descriptor o) _ h k.1)

    pub act_each-Covers :
        (os : List O) (actions : List (Action A)) (w : W)
        → Holds os w
        → Returns
            (λ os' w'.
              Holds os' w' × Returns (λ u w''. SameTable is_open start w'') (close_all c os' w'))
            (act_each c os actions w)
    act_each-Covers os actions w h =
        Returns.mono (act_each-keeps os actions w h) λ os' w' h'. (h', close_all-same os' w' h')
