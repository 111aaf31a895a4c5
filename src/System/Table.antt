-- ===== src/System/Table.antt =====
-- The table of open descriptors across calls: unchanged, or with one more entry.
use cpp_socket_library.Prelude.{
  ◌≡◌, sym, ◌∙◌, Bool, true, false, ◌||◌, ℤ, eq_ℤ, eq_ℤ→≡, arith, ap, ℕ, ◌≢◌, pos,
}
use cpp_socket_library.Errors.{is_invalid_socket}
use cpp_socket_library.System.Defs.{Os}
use cpp_socket_library.System.Laws.{IsLedger}

pub not_zero : (d : ℤ) → eq_ℤ d (pos 0) ≡ false → d ≢ pos 0
not_zero d h e = cc (h, ap (λ x. eq_ℤ x (pos 0)) e)

module _ {W : Type 0} (is_open : W → ℤ → Bool) where
  abbrev pub SameTable : W → W → Type 0
  SameTable w w' = (d : ℤ) → is_open w' d ≡ is_open w d

  -- `fd` was not open, is a valid descriptor, and is all that was opened.
  pub record Opens (fd : ℤ) (w w' : W) : Type 0 where
    pub valid : is_invalid_socket fd ≡ false
    pub fresh : is_open w fd ≡ false
    pub opened : (d : ℤ) → is_open w' d ≡ (eq_ℤ d fd || is_open w d)

  pub Opens-same : {fd : ℤ} {w w₁ w' : W} → Opens fd w w₁ → SameTable w₁ w' → Opens fd w w'
  Opens-same o same = record { valid = o.valid; fresh = o.fresh; opened = λ d. same d ∙ o.opened d }

  pub same-Opens : {fd : ℤ} {w w₁ w' : W} → SameTable w w₁ → Opens fd w₁ w' → Opens fd w w'
  same-Opens {fd} same o = record {
    valid = o.valid;
    fresh = sym (same fd) ∙ o.fresh;
    opened = λ d. o.opened d ∙ ap (◌||◌ (eq_ℤ d fd)) (same d);
  }

  module _ (os : Os W) (law : IsLedger os is_open) where
    pub socket-Opens :
        (f : ℤ) (t p : ℕ) (w : W)
        → is_invalid_socket (os.socket f t p w).0 ≡ false
        → Opens (os.socket f t p w).0 w (os.socket f t p w).1
    socket-Opens f t p w good = record {
      valid = good;
      fresh = law.socket_fresh f t p w;
      opened = λ d. ground (arith, law.socket_opens f t p w d);
    }

    pub socket-same :
        (f : ℤ) (t p : ℕ) (w : W)
        → is_invalid_socket (os.socket f t p w).0 ≡ true
        → SameTable w (os.socket f t p w).1
    socket-same f t p w bad d = ground (arith, law.socket_opens f t p w d)

    -- Closing what was opened gives the table back.
    pub close-Opens : (fd : ℤ) {w w' : W} → Opens fd w w' → SameTable w (os.close fd w').1
    close-Opens fd {w} {w'} o d =
        ground (arith, law.close_closes fd w' d, o.opened d, o.fresh, eq_ℤ→≡ d fd)

    -- `close` of a descriptor that is not open does nothing.
    pub close-same : (fd : ℤ) (w : W) → is_open w fd ≡ false → SameTable w (os.close fd w).1
    close-same fd w shut d = ground (arith, law.close_closes fd w d, eq_ℤ→≡ d fd)
