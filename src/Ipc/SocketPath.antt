-- ===== src/Ipc/SocketPath.antt =====
-- Socket paths: the cut to the size of `sun_path`, the address made of a path, and its removal
-- (IPCSocket.h, IPCSocket.cpp and the first lines of the functions that take a path).
use cpp_socket_library.Prelude.{
  ℕ, zero, suc, ◌<◌, ◌≡◌, refl, sym, ap, ◌∙◌, inl, inr, [], ◌∷◌, leb, if◌then◌else◌, length, take,
  replicate, Bytes, IsText, until_nul, write_at, length-write_at, take_all, Bool-cases, arith, ℤ,
}
use cpp_socket_library.Protocol.{af_unix}
use cpp_socket_library.System.{SockAddr, Os, M, call}

-- `std::size(address.sun_path)` and `sizeof(sockaddr_un)`
abbrev pub sun_path_size : ℕ
sun_path_size = 108

abbrev pub sockaddr_un_size : ℕ
sockaddr_un_size = 110

-- `path.resize(...)` where the path is as long as the buffer or longer.
unfoldable pub fit_path : Bytes → Bytes
fit_path path = if leb sun_path_size (length path) then take sun_path_size path else path

-- `strncpy` of `path.c_str()` into the zeroed buffer.
unfoldable pub unix_address : Bytes → SockAddr
unix_address path = record {
  sa_family = af_unix;
  sa_data = write_at (replicate sun_path_size 0) 0 (until_nul path);
}

module _ {W : Type 0} (os : Os W) where
  unfoldable pub remove_socket_path : Bytes → M W ℤ
  remove_socket_path path = call (os.remove (until_nul path))

until_nul-text : (s : Bytes) → IsText s → until_nul s ≡ s
until_nul-text [] t = refl
until_nul-text (zero ∷ s) t = absurd t
until_nul-text (suc c ∷ s) t = ap (◌∷◌ (suc c)) (until_nul-text s t)

until_nul-copied :
    (n : ℕ) (s : Bytes) → IsText s → until_nul (write_at (replicate n 0) 0 s) ≡ take n s
until_nul-copied zero s t = refl
until_nul-copied (suc n) [] t = refl
until_nul-copied (suc n) (zero ∷ s) t = absurd t
until_nul-copied (suc n) (suc c ∷ s) t = ap (◌∷◌ (suc c)) (until_nul-copied n s t)

take-IsText : (n : ℕ) (s : Bytes) → IsText s → IsText (take n s)
take-IsText zero s t = tt
take-IsText (suc n) [] t = tt
take-IsText (suc n) (zero ∷ s) t = absurd t
take-IsText (suc n) (suc c ∷ s) t = take-IsText n s t

take-take : (n : ℕ) (s : Bytes) → take n (take n s) ≡ take n s
take-take zero s = refl
take-take (suc n) [] = refl
take-take (suc n) (c ∷ s) = ap (◌∷◌ c) (take-take n s)

pub fit_path-take : (path : Bytes) → fit_path path ≡ take sun_path_size path
unfolding fit_path
fit_path-take path = elim (Bool-cases (leb sun_path_size (length path))) [
  | inl long ↦ rw long refl
  | inr short ↦ rw short (sym (take_all sun_path_size path (ground arith)))
]

-- For a path without NUL bytes the buffer of the address has its fixed size whatever the length of
-- the path, and holds the first 108 bytes of the path: all of a shorter path, with a terminator
-- behind it, and of a longer one no more, so that paths that agree there have one address.
pub unix_address-fit_path :
    (path : Bytes)
    → IsText path
    → (length (unix_address (fit_path path)).sa_data ≡ sun_path_size)
      × (until_nul (unix_address (fit_path path)).sa_data ≡ take sun_path_size path)
      × (length path < sun_path_size → until_nul (unix_address (fit_path path)).sa_data ≡ path)
      × ((other : Bytes)
          → take sun_path_size other ≡ take sun_path_size path
          → unix_address (fit_path other) ≡ unix_address (fit_path path))
unfolding unix_address
unix_address-fit_path path t =
    let cut : until_nul (unix_address (fit_path path)).sa_data ≡ take sun_path_size path =
      rw
        (
          fit_path-take path,
          until_nul-text (take sun_path_size path) (take-IsText sun_path_size path t),
        )
        (until_nul-copied sun_path_size (take sun_path_size path) (take-IsText sun_path_size path t)
          ∙ take-take sun_path_size path) in
    (
      length-write_at (replicate sun_path_size 0) 0 (until_nul (fit_path path)),
      cut,
      λ short. cut ∙ take_all sun_path_size path (omega arith),
      λ other same. rw (fit_path-take other, fit_path-take path, same) refl,
    )
