-- ===== src/System/Laws.antt =====
-- Documented behaviour of the operating system, as hypotheses for the theorems that rest on it.
use cpp_socket_library.Prelude.{
  ℕ, ◌+◌, ◌≤◌, ◌<◌, ◌≡◌, ◌≢◌, Bool, false, not, ◌&&◌, ◌||◌, Option, none, some, List, [], ◌∷◌, ◌++◌,
  if◌then◌else◌, length, take, Bytes, IsText, ℤ, pos, pos_part, eq_ℤ, minus_one,
}
use cpp_socket_library.Errors.{get_invalid_socket_value, is_invalid_socket}
use cpp_socket_library.System.Defs.{SockAddr, AddrInfo, TimeVal, Os}

-- A text that `inet_ntop` writes into a buffer of `size` bytes has room for its terminator.
abbrev pub Fits : ℕ → Option Bytes → Type 0
Fits size none = Unit {0}
Fits size (some text) = IsText text × (length text < size)

module _ {W : Type 0} (os : Os W) where
  abbrev pub NtopFits : Type 0
  NtopFits = (f : ℤ) (address : Bytes) (size : ℕ) → Fits size (os.inet_ntop f address size)

  -- recv(2) on a connection: it returns the number of bytes that it wrote, at most as many as it
  -- was asked for; on an error it writes none.
  pub record IsReceiver (descriptor flags : ℤ) : Type 0 where
    pub counted :
        (n : ℕ) (w : W)
        → length (os.recv descriptor n flags w).0.1 ≡ pos_part (os.recv descriptor n flags w).0.0
    pub within : (n : ℕ) (w : W) → length (os.recv descriptor n flags w).0.1 ≤ n

  -- recvfrom(2): where it does not fail it returns the number of bytes that it wrote, at most as
  -- many as it was asked for.
  pub record IsDatagramReceiver (descriptor flags : ℤ) : Type 0 where
    pub counted :
        (n k : ℕ) (w : W)
        → (os.recvfrom descriptor n flags w).0.0 ≡ pos k
        → length (os.recvfrom descriptor n flags w).0.1 ≡ k
    pub within : (n k : ℕ) (w : W) → (os.recvfrom descriptor n flags w).0.0 ≡ pos k → k ≤ n

  -- Datagrams that are sent to one address, of a length `size`, and received on one descriptor,
  -- over a network that loses none and keeps their order: `queue` are the ones that are still to be
  -- received, and at most `depth` of them find room. A descriptor of the family, type and protocol
  -- is `usable` from `socket` on. A datagram of at most `limit` bytes is sent whole; for a longer
  -- one `sendto` fails, as for EMSGSIZE, and nothing is sent. A receiver that asks for less than
  -- the first one gets its first bytes, and the rest of it is discarded. Descriptors for sending
  -- can be had, and the descriptor of the receiver is in use.
  pub record IsMailbox (queue : W → List Bytes) (usable : W → ℤ → Type 0) (family : ℤ)
      (type protocol : ℕ) (address : SockAddr) (size : ℕ) (receiver flags : ℤ) (limit depth : ℕ)
      : Type 0 where
    pub available : (w : W) → is_invalid_socket (os.socket family type protocol w).0 ≡ false
    pub opens_usable :
        (w : W) → usable (os.socket family type protocol w).1 (os.socket family type protocol w).0
    pub in_use : (w : W) → (os.socket family type protocol w).0 ≢ receiver
    pub socket_keeps : (w : W) → queue (os.socket family type protocol w).1 ≡ queue w
    pub close_keeps : (fd : ℤ) (w : W) → fd ≢ receiver → queue (os.close fd w).1 ≡ queue w
    pub arrives :
        (fd : ℤ) (message : Bytes) (n : ℕ) (w : W)
        → usable w fd
        → n ≤ length message
        → n ≤ limit
        → length (queue w) < depth
        → ((os.sendto fd message n flags address size w).0 ≡ pos n)
          × (queue (os.sendto fd message n flags address size w).1 ≡ queue w ++ take n message ∷ [])
    pub too_long :
        (fd : ℤ) (message : Bytes) (n : ℕ) (w : W)
        → usable w fd
        → n ≤ length message
        → limit < n
        → ((os.sendto fd message n flags address size w).0 ≡ minus_one)
          × (queue (os.sendto fd message n flags address size w).1 ≡ queue w)
    pub received :
        (n : ℕ) (w : W) (m : Bytes) (rest : List Bytes)
        → queue w ≡ m ∷ rest
        → ((os.recvfrom receiver n flags w).0.0 ≡ pos (length (take n m)))
          × ((os.recvfrom receiver n flags w).0.1 ≡ take n m)
          × (queue (os.recvfrom receiver n flags w).1 ≡ rest)

  -- A byte stream: `incoming` are the bytes that are still to be received on the connection. They
  -- are received in order, each once, and waiting takes none.
  pub record IsStream (incoming : W → Bytes) (descriptor flags : ℤ) : Type 0 where
    pub receiver : IsReceiver descriptor flags
    pub in_order :
        (n : ℕ) (w : W)
        → (os.recv descriptor n flags w).0.1 ++ incoming (os.recv descriptor n flags w).1
          ≡ incoming w
    pub select_keeps : (t : TimeVal) (w : W) → incoming (os.select descriptor t w).1 ≡ incoming w

  -- All that is to come has arrived, and the peer keeps the connection open: one descriptor is
  -- ready exactly when a byte is left, and then a byte is received.
  pub record IsBuffered (incoming : W → Bytes) (descriptor flags : ℤ) : Type 0 where
    pub valid : is_invalid_socket descriptor ≡ false
    pub stream : IsStream incoming descriptor flags
    pub ready :
        (t : TimeVal) (w : W) (c : ℕ) (rest : Bytes)
        → incoming w ≡ c ∷ rest
        → (os.select descriptor t w).0 ≡ pos 1
    pub idle : (t : TimeVal) (w : W) → incoming w ≡ [] → (os.select descriptor t w).0 ≡ pos 0
    pub some_byte :
        (n : ℕ) (w : W) (c : ℕ) (rest : Bytes)
        → incoming w ≡ c ∷ rest
        → 1 ≤ n
        → 1 ≤ length (os.recv descriptor n flags w).0.1

  -- A blocking `send` on one end of a connection that stays up: it takes the whole message, and its
  -- bytes arrive behind those that are still to be received on the other end.
  pub record Delivers (incoming : W → Bytes) (sender flags : ℤ) : Type 0 where
    pub whole :
        (message : Bytes) (n : ℕ) (w : W)
        → n ≤ length message
        → (os.send sender message n flags w).0 ≡ pos n
    pub arrives :
        (message : Bytes) (n : ℕ) (w : W)
        → n ≤ length message
        → incoming (os.send sender message n flags w).1 ≡ incoming w ++ take n message

  -- Receiving on a descriptor leaves `other` as it is.
  pub record Leaves (other : W → Bytes) (descriptor flags : ℤ) : Type 0 where
    pub recv_keeps : (n : ℕ) (w : W) → other (os.recv descriptor n flags w).1 ≡ other w
    pub select_keeps : (t : TimeVal) (w : W) → other (os.select descriptor t w).1 ≡ other w

  -- One end of a connection that stays up. `own` are the bytes that it is still to receive, which
  -- have all arrived, and `peer` are those that the other end is still to receive. A blocking
  -- `send` takes the whole message where no more than `capacity` bytes are then on their way to the
  -- other end, and its bytes arrive there; where they are more it waits for the other end, and
  -- nothing is said of it here. Receiving and sending do not disturb the other direction.
  pub record IsEnd (own peer : W → Bytes) (capacity : ℕ) (descriptor flags : ℤ) : Type 0 where
    pub buffered : IsBuffered own descriptor flags
    pub delivers :
        (message : Bytes) (n : ℕ) (w : W)
        → n ≤ length message
        → length (peer w) + n ≤ capacity
        → ((os.send descriptor message n flags w).0 ≡ pos n)
          × (peer (os.send descriptor message n flags w).1 ≡ peer w ++ take n message)
    pub leaves : Leaves peer descriptor flags
    pub send_keeps :
        (message : Bytes) (n : ℕ) (w : W) → own (os.send descriptor message n flags w).1 ≡ own w

  -- The peer has closed the connection, and all its bytes are received: the descriptor stays
  -- ready, and `recv` returns 0.
  pub record IsClosed (closed : W → Type 0) (descriptor flags : ℤ) : Type 0 where
    pub valid : is_invalid_socket descriptor ≡ false
    pub select_ready : (t : TimeVal) (w : W) → closed w → (os.select descriptor t w).0 ≡ pos 1
    pub select_stays : (t : TimeVal) (w : W) → closed w → closed (os.select descriptor t w).1
    pub recv_nothing : (n : ℕ) (w : W) → closed w → (os.recv descriptor n flags w).0.0 ≡ pos 0
    pub recv_stays : (n : ℕ) (w : W) → closed w → closed (os.recv descriptor n flags w).1

  -- EBADF: `send` and `recv` on the invalid descriptor fail, no byte is received, and no descriptor
  -- is opened or closed. The invalid descriptor is never open.
  pub record RefusesInvalid (is_open : W → ℤ → Bool) : Type 0 where
    pub not_open : (w : W) → is_open w get_invalid_socket_value ≡ false
    pub send_refused :
        (message : Bytes) (n : ℕ) (flags : ℤ) (w : W)
        → (os.send get_invalid_socket_value message n flags w).0 ≡ minus_one
    pub recv_refused :
        (n : ℕ) (flags : ℤ) (w : W) → (os.recv get_invalid_socket_value n flags w).0.0 ≡ minus_one
    pub recv_empty :
        (n : ℕ) (flags : ℤ) (w : W) → (os.recv get_invalid_socket_value n flags w).0.1 ≡ []
    pub send_keeps :
        (message : Bytes) (n : ℕ) (flags : ℤ) (w : W) (d : ℤ)
        → is_open (os.send get_invalid_socket_value message n flags w).1 d ≡ is_open w d
    pub recv_keeps :
        (n : ℕ) (flags : ℤ) (w : W) (d : ℤ)
        → is_open (os.recv get_invalid_socket_value n flags w).1 d ≡ is_open w d

  -- remove(3): where it answers 0 the file of the path is gone. A `bind` that is refused makes no
  -- file.
  pub record IsFiles (exists_at : W → Bytes → Bool) : Type 0 where
    pub gone :
        (path : Bytes) (w : W)
        → (os.remove path w).0 ≡ pos 0
        → exists_at (os.remove path w).1 path ≡ false
    pub none_made :
        (fd : ℤ) (a : SockAddr) (n : ℕ) (w : W) (path : Bytes)
        → (os.bind fd a n w).0 ≡ minus_one
        → exists_at (os.bind fd a n w).1 path ≡ exists_at w path

  -- The table of open descriptors: `socket` and `accept` open a new one unless they fail, `close`
  -- closes one, and no other call changes the table.
  pub record IsLedger (is_open : W → ℤ → Bool) : Type 0 where
    pub socket_opens :
        (f : ℤ) (t p : ℕ) (w : W) (d : ℤ)
        → is_open (os.socket f t p w).1 d ≡ (
            if is_invalid_socket (os.socket f t p w).0
            then is_open w d
            else eq_ℤ d (os.socket f t p w).0 || is_open w d)
    pub socket_fresh : (f : ℤ) (t p : ℕ) (w : W) → is_open w (os.socket f t p w).0 ≡ false
    pub accept_opens :
        (fd : ℤ) (w : W) (d : ℤ)
        → is_open (os.accept fd w).1 d ≡ (
            if is_invalid_socket (os.accept fd w).0.0
            then is_open w d
            else eq_ℤ d (os.accept fd w).0.0 || is_open w d)
    pub accept_fresh : (fd : ℤ) (w : W) → is_open w (os.accept fd w).0.0 ≡ false
    pub close_closes :
        (fd : ℤ) (w : W) (d : ℤ) → is_open (os.close fd w).1 d ≡ (not (eq_ℤ d fd) && is_open w d)
    pub setsockopt_keeps :
        (fd : ℤ) (l n : ℕ) (v : ℤ) (w : W) (d : ℤ)
        → is_open (os.setsockopt fd l n v w).1 d ≡ is_open w d
    pub bind_keeps :
        (fd : ℤ) (a : SockAddr) (n : ℕ) (w : W) (d : ℤ)
        → is_open (os.bind fd a n w).1 d ≡ is_open w d
    pub connect_keeps :
        (fd : ℤ) (a : SockAddr) (n : ℕ) (w : W) (d : ℤ)
        → is_open (os.connect fd a n w).1 d ≡ is_open w d
    pub listen_keeps : (fd n : ℤ) (w : W) (d : ℤ) → is_open (os.listen fd n w).1 d ≡ is_open w d
    pub sendto_keeps :
        (fd : ℤ) (b : Bytes) (n : ℕ) (g : ℤ) (a : SockAddr) (k : ℕ) (w : W) (d : ℤ)
        → is_open (os.sendto fd b n g a k w).1 d ≡ is_open w d
    pub recvfrom_keeps :
        (fd : ℤ) (n : ℕ) (g : ℤ) (w : W) (d : ℤ) → is_open (os.recvfrom fd n g w).1 d ≡ is_open w d
    pub getsockname_keeps :
        (fd : ℤ) (w : W) (d : ℤ) → is_open (os.getsockname fd w).1 d ≡ is_open w d
    pub select_keeps :
        (fd : ℤ) (t : TimeVal) (w : W) (d : ℤ) → is_open (os.select fd t w).1 d ≡ is_open w d
    pub getaddrinfo_keeps :
        (h p : Bytes) (i : AddrInfo) (w : W) (d : ℤ)
        → is_open (os.getaddrinfo h p i w).1 d ≡ is_open w d
    pub freeaddrinfo_keeps :
        (l : List SockAddr) (w : W) (d : ℤ) → is_open (os.freeaddrinfo l w) d ≡ is_open w d
    pub remove_keeps : (path : Bytes) (w : W) (d : ℤ) → is_open (os.remove path w).1 d ≡ is_open w d
