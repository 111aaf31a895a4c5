-- ===== src/Sharing.antt =====
-- Programs that copy and assign sockets: the copy constructors and assignment operators of src copy
-- the descriptor, so that several objects can hold the same one.
pub mod Covered
use cpp_socket_library.Prelude.{
  ℕ, zero, suc, ◌≡◌, Bool, true, Option, none, some, List, [], ◌∷◌, ◌==◌, if◌then◌else◌, ℤ,
}
use cpp_socket_library.Errors.{is_socket_exception}
use cpp_socket_library.System.{M, pure, ◌>>=◌, ◌>>◌}
use cpp_socket_library.System.Ends.{Ends}
use cpp_socket_library.System.Table.{SameTable, Opens}
use cpp_socket_library.ServerSocket.{Closable, IsClosable, recover}

-- A class of sockets `O`, with a constructor that takes an `A`.
pub record SocketClass (W O A : Type 0) : Type 0 where
  pub base : Closable W O
  pub construct : A → M W O
  pub copy : O → O
  pub assign_from : (target socket : O) → O

module _ {W : Type 0} (is_open : W → ℤ → Bool) where
  -- The constructor opens the one descriptor of its object, or throws what a handler for
  -- `SocketException` catches, with nothing left open. A copy has the descriptor of the original,
  -- and so has an object that is assigned to.
  pub record SharesDescriptors {O A : Type 0} (descriptor : O → ℤ) (c : SocketClass W O A)
      : Type 0 where
    pub closes : IsClosable is_open descriptor c.base
    pub constructs :
        (a : A) (w : W)
        → Ends
            (λ o w'. Opens is_open (descriptor o) w w')
            (λ e w'. (is_socket_exception e ≡ true) × SameTable is_open w w')
            (c.construct a w)
    pub copied : (o : O) → descriptor (c.copy o) ≡ descriptor o
    pub assigned : (target o : O) → descriptor (c.assign_from target o) ≡ descriptor o

-- What a program does with its objects, which it knows by their places in a list.
pub data Action (A : Type 0) : Type 0 where
  construct_one : A → Action A
  copy_one : (i : ℕ) → Action A
  close_one : (i : ℕ) → Action A
  close_and_assign : (target source : ℕ) → Action A

abbrev pub nth : {O : Type 0} → ℕ → List O → Option O
nth i [] = none
nth zero (o ∷ os) = some o
nth (suc i) (o ∷ os) = nth i os

module _ {W O A : Type 0} (c : SocketClass W O A) where
  -- The object at a place is closed, and then changed by `f`; there may be none.
  unfoldable pub close_at : ℕ → (O → O) → List O → M W (List O)
  close_at i f [] = pure []
  close_at zero f (o ∷ os) = do o' ← c.base.close o; pure (f o' ∷ os)
  close_at (suc i) f (o ∷ os) = do os' ← close_at i f os; pure (o ∷ os')

  abbrev pub copy_of : Option O → List O → List O
  copy_of none os = os
  copy_of (some o) os = c.copy o ∷ os

  abbrev pub assign_at : ℕ → Option O → List O → M W (List O)
  assign_at i none os = pure os
  assign_at i (some source) os = close_at i (λ target. c.assign_from target source) os

  -- New objects come in front.
  unfoldable pub act : List O → Action A → M W (List O)
  unfolding close_at
  act os (construct_one a) = λ w. recover os ((do o ← c.construct a; pure (o ∷ os)) w)
  act os (copy_one i) = pure (copy_of (nth i os) os)
  act os (close_one i) = close_at i (λ o. o) os
  act os (close_and_assign i j) = if i == j then pure os else assign_at i (nth j os) os

  unfoldable pub act_each : List O → List (Action A) → M W (List O)
  unfolding act
  act_each os [] = pure os
  act_each os (a ∷ as') = do os' ← act os a; act_each os' as'

  -- Every object is closed.
  unfoldable pub close_all : List O → M W (Unit {0})
  close_all [] = pure tt
  close_all (o ∷ os) = do c.base.close o; close_all os
