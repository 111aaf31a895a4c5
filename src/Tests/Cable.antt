-- ===== src/Tests/Cable.antt =====
-- A small system with two ends of one connection, on the descriptors 0 and 1.
use cpp_socket_library.Prelude.{
  ℕ, ◌≡◌, ◌≤◌, ◌+◌, ap, [], ◌∷◌, ltb, minus_one, if◌then◌else◌, inl, inr, Bool-cases, refl, Bool,
  true, false, not, ◌++◌, length, take, drop, length-take, Bytes, codes, arith, ℤ, pos, eq_ℤ,
}
use cpp_socket_library.System.{Os}
use cpp_socket_library.System.Laws.{IsEnd}
use cpp_socket_library.Tests.Machine.{idle, take-drop, take_some}

-- What is on its way to each end.
pub record Cable : Type 0 where
  pub to_true : Bytes
  pub to_false : Bytes

abbrev pub arriving : Bool → Cable → Bytes
arriving true c = c.to_true
arriving false c = c.to_false

abbrev put : Bool → Bytes → Cable → Cable
put true s c = record c { to_true = s }
put false s c = record c { to_false = s }

abbrev pub end_at : Bool → ℤ
end_at true = pos 0
end_at false = pos 1

abbrev owner : ℤ → Bool
owner d = eq_ℤ d (pos 0)

abbrev waiting : Bytes → ℤ
waiting [] = pos 0
waiting (b ∷ s) = pos 1

-- No more than 16 bytes are on their way to an end.
abbrev send_to : Bool → Bytes → ℕ → Cable → ℤ × Cable
send_to end b n c =
    if ltb 16 (length (arriving end c) + n)
    then (minus_one, c)
    else (pos n, put end (arriving end c ++ take n b) c)

abbrev pub cable : Os Cable
cable = record idle {
  send = λ d b n g c. send_to (not (owner d)) b n c;
  recv = λ d n g c.
      let got = take n (arriving (owner d) c) in
      ((pos (length got), got), put (owner d) (drop n (arriving (owner d) c)) c);
  select = λ d t c. (waiting (arriving (owner d) c), c);
}

abbrev pub fresh_cable : Cable
fresh_cable = record { to_true = codes "old"; to_false = [] }

le→ltb : (a b : ℕ) → a ≤ b → ltb b a ≡ false
le→ltb a b h = ground arith

pub cable-IsEnd :
    (flags : ℤ) (end : Bool) → IsEnd cable (arriving end) (arriving (not end)) 16 (end_at end) flags
cable-IsEnd flags true = record {
  buffered = record {
    valid = refl;
    stream = record {
      receiver = record {
        counted = λ n c. refl;
        within = λ n c. omega (arith, length-take n c.to_true);
      };
      in_order = λ n c. take-drop n c.to_true;
      select_keeps = λ t c. refl;
    };
    ready = λ t c b rest e. ap waiting e;
    idle = λ t c e. ap waiting e;
    some_byte = λ n c b rest e h. take_some n c.to_true b rest e h;
  };
  delivers = λ b n c h room. let ok = le→ltb _ _ room in rw ok (refl, refl);
  leaves = record { recv_keeps = λ n c. refl; select_keeps = λ t c. refl };
  send_keeps = λ b n c. elim (Bool-cases (ltb 16 (length c.to_false + n))) [
    | inl full ↦ rw full refl
    | inr room ↦ rw room refl
  ];
}
cable-IsEnd flags false = record {
  buffered = record {
    valid = refl;
    stream = record {
      receiver = record {
        counted = λ n c. refl;
        within = λ n c. omega (arith, length-take n c.to_false);
      };
      in_order = λ n c. take-drop n c.to_false;
      select_keeps = λ t c. refl;
    };
    ready = λ t c b rest e. ap waiting e;
    idle = λ t c e. ap waiting e;
    some_byte = λ n c b rest e h. take_some n c.to_false b rest e h;
  };
  delivers = λ b n c h room. let ok = le→ltb _ _ room in rw ok (refl, refl);
  leaves = record { recv_keeps = λ n c. refl; select_keeps = λ t c. refl };
  send_keeps = λ b n c. elim (Bool-cases (ltb 16 (length c.to_true + n))) [
    | inl full ↦ rw full refl
    | inr room ↦ rw room refl
  ];
}
