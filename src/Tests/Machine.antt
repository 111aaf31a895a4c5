-- ===== src/Tests/Machine.antt =====
-- A small system that meets the laws: a table of descriptors, bytes to be received, and one file.
use cpp_socket_library.Prelude.{
  ℕ, zero, suc, ◌≤◌, ◌≡◌, refl, ap, Bool, true, false, not, ◌&&◌, ◌||◌, Option, none, some, List,
  [], ◌∷◌, ◌++◌, ltb, ltb→lt, ◌==◌, if◌then◌else◌, length, take, drop, length-take, get_or,
  replicate, Bytes, codes, IsText, ℤ, pos, negsuc, minus_one, eq_ℤ, arith, Bool-cases, inl, inr,
}
use cpp_socket_library.Errors.{is_invalid_socket}
use cpp_socket_library.System.{SockAddr, Os}
use cpp_socket_library.System.Laws.{
  Fits, NtopFits, IsReceiver, IsDatagramReceiver, IsStream, IsBuffered, IsClosed, IsLedger,
  Delivers,
}

pub record Machine : Type 0 where
  pub table : List Bool
  pub inbox : Bytes
  pub file : Bool

-- What the system answers where it has a choice.
pub record Answers : Type 0 where
  pub hung_up : Bool
  pub connect_code : ℤ
  pub bind_code : ℤ
  pub reuse_code : ℤ
  pub text : Option Bytes

abbrev set_at : List Bool → ℕ → List Bool
set_at [] i = []
set_at (b ∷ t) zero = false ∷ t
set_at (b ∷ t) (suc i) = b ∷ set_at t i

abbrev shut : List Bool → ℤ → List Bool
shut t (pos k) = set_at t k
shut t (negsuc k) = t

abbrev pub is_open : Machine → ℤ → Bool
is_open m (pos k) = get_or m.table k false
is_open m (negsuc k) = false

abbrev opened : Machine → Machine
opened m = record m { table = m.table ++ true ∷ [] }

abbrev waiting : Bool → Bytes → ℤ
waiting true s = pos 1
waiting false [] = pos 0
waiting false (c ∷ s) = pos 1

abbrev fit_text : ℕ → Option Bytes → Option Bytes
fit_text size none = none
fit_text size (some t) = if ltb (length t) size then some t else none

-- 10.0.0.1, port 8080
abbrev pub peer : SockAddr
peer = record { sa_family = 2; sa_data = 31 ∷ 144 ∷ 10 ∷ 0 ∷ 0 ∷ 1 ∷ replicate 20 0 }

-- A system that does nothing and refuses all.
abbrev pub idle : {W : Type 0} → Os W
idle = record {
  socket = λ f t p m. (minus_one, m);
  setsockopt = λ d l n v m. (minus_one, m);
  bind = λ d s n m. (minus_one, m);
  connect = λ d s n m. (minus_one, m);
  listen = λ d n m. (minus_one, m);
  accept = λ d m. ((minus_one, peer), m);
  send = λ d b n g m. (minus_one, m);
  recv = λ d n g m. ((minus_one, []), m);
  sendto = λ d b n g s k m. (minus_one, m);
  recvfrom = λ d n g m. ((minus_one, [], peer), m);
  select = λ d t m. (minus_one, m);
  close = λ d m. (minus_one, m);
  getsockname = λ d m. ((minus_one, peer), m);
  getaddrinfo = λ h p i m. ((minus_one, none), m);
  freeaddrinfo = λ l m. m;
  remove = λ p m. (minus_one, m);
  inet_ntop = λ f s n. none;
}

abbrev pub system : Answers → Os Machine
system a = record {
  socket = λ f t p m. (pos (length m.table), opened m);
  setsockopt = λ d l n v m. (a.reuse_code, m);
  bind = λ d s n m. (if is_invalid_socket d then minus_one else a.bind_code, m);
  connect = λ d s n m. (a.connect_code, m);
  listen = λ d n m. (pos 0, m);
  accept = λ d m. ((pos (length m.table), peer), opened m);
  send = λ d b n g m. (pos n, record m { inbox = m.inbox ++ take n b });
  recv = λ d n g m.
      ((pos (length (take n m.inbox)), take n m.inbox), record m { inbox = drop n m.inbox });
  sendto = λ d b n g s k m. (pos n, m);
  recvfrom =
      λ d n g m. ((pos (length (take n m.inbox)), take n m.inbox, peer), record m { inbox = [] });
  select = λ d t m. (waiting a.hung_up m.inbox, m);
  close = λ d m. (pos 0, record m { table = shut m.table d });
  getsockname = λ d m. ((pos 0, peer), m);
  getaddrinfo = λ h p i m. ((pos 0, some (peer ∷ [])), m);
  freeaddrinfo = λ l m. m;
  remove = λ p m. (pos 0, record m { file = false });
  inet_ntop = λ f s n. fit_text n a.text;
}

abbrev pub friendly : Answers
friendly = record {
  hung_up = false;
  connect_code = pos 0;
  bind_code = pos 0;
  reuse_code = pos 0;
  text = some (codes "10.0.0.1");
}

abbrev pub hostile : Answers
hostile = record {
  hung_up = true;
  connect_code = minus_one;
  bind_code = minus_one;
  reuse_code = minus_one;
  text = none;
}

-- Descriptors 0 and 1 are open, and two lines are to be received.
abbrev pub start : Machine
start = record { table = true ∷ true ∷ []; inbox = codes "ab~cd"; file = true }

pub take-drop : (n : ℕ) (s : Bytes) → take n s ++ drop n s ≡ s
take-drop zero s = refl
take-drop (suc n) [] = refl
take-drop (suc n) (c ∷ s) = ap (◌∷◌ c) (take-drop n s)

module _ (a : Answers) (d flags : ℤ) where
  pub system-IsReceiver : IsReceiver (system a) d flags
  system-IsReceiver = record {
    counted = λ n m. refl;
    within = λ n m. omega (arith, length-take n m.inbox);
  }

  pub system-IsStream : IsStream (system a) (λ m. m.inbox) d flags
  system-IsStream = record {
    receiver = system-IsReceiver;
    in_order = λ n m. take-drop n m.inbox;
    select_keeps = λ t m. refl;
  }

  pub system-IsDatagramReceiver : IsDatagramReceiver (system a) d flags
  system-IsDatagramReceiver = record {
    counted = λ n k m e. ground arith;
    within = λ n k m e. ground (arith, length-take n m.inbox);
  }

pub system-Delivers :
    (a : Answers) (sender flags : ℤ) → Delivers (system a) (λ m. m.inbox) sender flags
system-Delivers a sender flags = record { whole = λ b n m h. refl; arrives = λ b n m h. refl }

pub take_some :
    (n : ℕ) (s : Bytes) (c : ℕ) (rest : Bytes) → s ≡ c ∷ rest → 1 ≤ n → 1 ≤ length (take n s)
take_some zero s c rest e h = absurd (omega arith)
take_some (suc n) s c rest e h = rw e (omega arith)

pub system-IsBuffered :
    (k : ℕ) (flags : ℤ) → IsBuffered (system friendly) (λ m. m.inbox) (pos k) flags
system-IsBuffered k flags = record {
  valid = refl;
  stream = system-IsStream friendly (pos k) flags;
  ready = λ t m c rest e. ap (waiting false) e;
  idle = λ t m e. ap (waiting false) e;
  some_byte = λ n m c rest e h. take_some n m.inbox c rest e h;
}

abbrev pub Drained : Machine → Type 0
Drained m = m.inbox ≡ []

take-nil : (n : ℕ) → length (take {A = ℕ} n []) ≡ 0
take-nil zero = refl
take-nil (suc n) = refl

drop-nil : (n : ℕ) → drop {A = ℕ} n [] ≡ []
drop-nil zero = refl
drop-nil (suc n) = refl

pub system-IsClosed : (k : ℕ) (flags : ℤ) → IsClosed (system hostile) Drained (pos k) flags
system-IsClosed k flags = record {
  valid = refl;
  select_ready = λ t m h. refl;
  select_stays = λ t m h. h;
  recv_nothing = λ n m h. rw h (ap pos (take-nil n));
  recv_stays = λ n m h. rw h (drop-nil n);
}

fits : (n : ℕ) (t : Bytes) → IsText t → Fits n (fit_text n (some t))
fits n t ok = elim (Bool-cases (ltb (length t) n)) [
  | inl e ↦ rw e (ok, ltb→lt (length t) n e)
  | inr e ↦ rw e tt
]

pub system-NtopFits : NtopFits (system friendly)
system-NtopFits f s n = fits n (codes "10.0.0.1") tt

-- The table with a new entry, and with an entry closed.
get_or-fresh : (t : List Bool) → get_or t (length t) false ≡ false
get_or-fresh [] = refl
get_or-fresh (b ∷ t) = get_or-fresh t

get_or-new :
    (t : List Bool) (k : ℕ)
    → get_or (t ++ true ∷ []) k false ≡ ((k == length t) || get_or t k false)
get_or-new [] zero = refl
get_or-new [] (suc k) = ground arith
get_or-new (b ∷ t) zero = ground arith
get_or-new (b ∷ t) (suc k) = ground (arith, get_or-new t k)

get_or-set_at :
    (t : List Bool) (j k : ℕ) → get_or (set_at t j) k false ≡ (not (k == j) && get_or t k false)
get_or-set_at [] j k = ground arith
get_or-set_at (b ∷ t) zero zero = refl
get_or-set_at (b ∷ t) zero (suc k) = ground arith
get_or-set_at (b ∷ t) (suc j) zero = ground arith
get_or-set_at (b ∷ t) (suc j) (suc k) = ground (arith, get_or-set_at t j k)

is_open-opened :
    (m : Machine) (d : ℤ) → is_open (opened m) d ≡ (eq_ℤ d (pos (length m.table)) || is_open m d)
is_open-opened m (pos k) = get_or-new m.table k
is_open-opened m (negsuc k) = refl

is_open-shut :
    (m : Machine) (j d : ℤ)
    → is_open (record m { table = shut m.table j }) d ≡ (not (eq_ℤ d j) && is_open m d)
is_open-shut m (pos j) (pos k) = get_or-set_at m.table j k
is_open-shut m (pos j) (negsuc k) = refl
is_open-shut m (negsuc j) (pos k) = refl
is_open-shut m (negsuc j) (negsuc k) = ground arith

is_open-file : (m : Machine) (d : ℤ) → is_open (record m { file = false }) d ≡ is_open m d
is_open-file m (pos k) = refl
is_open-file m (negsuc k) = refl

is_open-inbox : (m : Machine) (d : ℤ) → is_open (record m { inbox = [] }) d ≡ is_open m d
is_open-inbox m (pos k) = refl
is_open-inbox m (negsuc k) = refl

pub system-IsLedger : (a : Answers) → IsLedger (system a) is_open
system-IsLedger a = record {
  socket_opens = λ f t p m d. is_open-opened m d;
  socket_fresh = λ f t p m. get_or-fresh m.table;
  accept_opens = λ fd m d. is_open-opened m d;
  accept_fresh = λ fd m. get_or-fresh m.table;
  close_closes = λ fd m d. is_open-shut m fd d;
  setsockopt_keeps = λ fd l n v m d. refl;
  bind_keeps = λ fd s n m d. refl;
  connect_keeps = λ fd s n m d. refl;
  listen_keeps = λ fd n m d. refl;
  sendto_keeps = λ fd b n g s k m d. refl;
  recvfrom_keeps = λ fd n g m d. is_open-inbox m d;
  getsockname_keeps = λ fd m d. refl;
  select_keeps = λ fd t m d. refl;
  getaddrinfo_keeps = λ h p i m d. refl;
  freeaddrinfo_keeps = λ l m d. refl;
  remove_keeps = λ path m d. is_open-file m d;
}
