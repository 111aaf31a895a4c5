-- ===== src/Tests/Streams.antt =====
-- The theorems on connections at concrete inputs: the machine holds the text "ab~cd".
use cpp_socket_library.Prelude.{true, false, List}
use cpp_socket_library.Stream.Dialogue.{
  Turn, turn, say, hear, Reply, sent, heard, Talks, true_end, false_end, over, says, hears,
  hears_nothing, dialogue, dialogue-Talks,
}
use cpp_socket_library.Tests.Cable.{end_at, arriving, cable, fresh_cable, cable-IsEnd}
use cpp_socket_library.Prelude.{
  ◌≡◌, refl, until_nul, arith, true, List, some, ◌∷◌, ℤ, [], Bytes, codes, pos, ℕ,
}
use cpp_socket_library.System.{out_of_fuel, pure, ◌>>=◌}
use cpp_socket_library.System.Returns.{Returns}
use cpp_socket_library.Stream.{receive_amount, receive_to_delimiter, receive_all, connected}
use cpp_socket_library.Stream.Receive.{Prefix, receive_amount-Prefix}
use cpp_socket_library.Stream.Delimiter.{Delimited, receive_to_delimiter-Delimited}
use cpp_socket_library.Stream.All.{after_nul, receive_all-until_nul}
use cpp_socket_library.Stream.Closed.{receive_all-closed, receive_to_delimiter-closed}
use cpp_socket_library.Stream.Session.{
  Request, character, amount, line, everything, one, many, replies, serve_each, serve_each-replies,
}
use cpp_socket_library.Stream.Lines.{send_each, receive_each, receive_each-send_each}
use cpp_socket_library.Tests.Machine.{
  system-Delivers, Machine, system, friendly, hostile, start, Drained, system-IsStream,
  system-IsBuffered, system-IsClosed,
}

abbrev inbox : Machine → Bytes
inbox m = m.inbox

abbrev empty : Machine
empty = record start { inbox = [] }

receive_amount-Prefix_example :
    Returns
      (Prefix (system friendly) inbox (pos 0) (pos 0) 3 start)
      (receive_amount (system friendly) (pos 0) 3 (pos 0) start)
receive_amount-Prefix_example =
    receive_amount-Prefix (system friendly) inbox (pos 0) (pos 0)
      (system-IsStream friendly (pos 0) (pos 0)) 3 start (omega arith)

receive_to_delimiter-Delimited_example :
    Returns
      (Delimited (system friendly) inbox (pos 0) (pos 0) 126 [] start)
      (receive_to_delimiter (system friendly) (pos 0) 9 126 (pos 0) start)
receive_to_delimiter-Delimited_example =
    receive_to_delimiter-Delimited (system friendly) inbox (pos 0) (pos 0)
      (system-IsStream friendly (pos 0) (pos 0)) 126 9 start (λ e. absurd (omega arith))
      (omega arith)

receive_all-until_nul_example :
    Returns
      (λ r m. (r ≡ until_nul (codes "ab~cd")) × (m.inbox ≡ after_nul (codes "ab~cd")))
      (receive_all (system friendly) (pos 0) 9 0 (pos 0) start)
receive_all-until_nul_example =
    receive_all-until_nul (system friendly) inbox (pos 0) (pos 0) (system-IsBuffered 0 (pos 0)) 9 0
      start (omega arith)

receive_all-closed_example : receive_all (system hostile) (pos 0) 9 0 (pos 0) empty ≡ out_of_fuel
receive_all-closed_example =
    receive_all-closed (system hostile) Drained (pos 0) (pos 0) (system-IsClosed 0 (pos 0)) 9 0
      empty refl

receive_to_delimiter-closed_example :
    Returns
      (λ text m. (text ≡ []) × Drained m)
      (receive_to_delimiter (system hostile) (pos 0) 9 126 (pos 0) empty)
    × ((t : ℕ)
        → Returns (λ up m. (up ≡ true) × Drained m) (connected (system hostile) (pos 0) t empty))
receive_to_delimiter-closed_example =
    receive_to_delimiter-closed (system hostile) Drained (pos 0) (pos 0) (system-IsClosed 0 (pos 0))
      8 126 empty refl (λ e. absurd (omega arith))

-- The text "ab", a character, two of the rest, and nothing more.
abbrev script : List Request
script = line 126 ∷ character ∷ amount 5 ∷ everything ∷ []

serve_each-replies_example :
    Returns
      (λ r m.
        (r ≡ many (codes "ab") ∷ one (some 99) ∷ many (codes "d") ∷ many [] ∷ []) × (m.inbox ≡ []))
      (serve_each (system friendly) (pos 0) (pos 0) 9 0 script start)
unfolding replies
serve_each-replies_example =
    serve_each-replies (system friendly) (pos 0) (pos 0) 9 0 inbox (system-IsBuffered 0 (pos 0))
      script start (many (codes "ab") ∷ one (some 99) ∷ many (codes "d") ∷ many [] ∷ []) []
      (omega arith) (omega arith) refl

receive_each-send_each_example :
    Returns {A = List ℤ × List Bytes}
      (λ r m. (r ≡ (pos 3 ∷ pos 1 ∷ [], codes "ab" ∷ [] ∷ [])) × (m.inbox ≡ []))
      ((send_each (system friendly) (pos 1) 126 (pos 0) (codes "ab" ∷ [] ∷ []) >>= λ sent.
          receive_each (system friendly) (pos 0) 126 (pos 0) 9 2 >>= λ received.
          pure (sent, received))
        empty)
receive_each-send_each_example =
    receive_each-send_each (system friendly) inbox (pos 1) (pos 0) (pos 0)
      (system-Delivers friendly (pos 1) (pos 0)) (system-IsBuffered 0 (pos 0)) 126 9
      (λ e. absurd (omega arith)) (codes "ab" ∷ [] ∷ []) empty (omega arith) refl (omega arith)

abbrev turns : List Turn
turns =
    turn true (say (codes "hello"))
    ∷ turn false (hear 2)
    ∷ turn false (say (codes "hi"))
    ∷ turn true (hear 9)
    ∷ turn true (hear 0)
    ∷ turn true (say (codes "!"))
    ∷ turn false (hear 9)
    ∷ []

abbrev replies_heard : List Reply
replies_heard =
    sent (pos 5)
    ∷ heard (codes "he")
    ∷ sent (pos 2)
    ∷ heard (codes "oldhi")
    ∷ heard []
    ∷ sent (pos 1)
    ∷ heard (codes "llo!")
    ∷ []

Talks-turns : Talks 16 turns (codes "old") [] replies_heard [] []
Talks-turns = true_end (says (codes "hello") (omega arith)) (
    false_end (hears 1) (
      false_end (says (codes "hi") (omega arith)) (
        true_end (hears 8) (
          true_end hears_nothing
            (true_end (says (codes "!") (omega arith)) (false_end (hears 8) over))))))

dialogue-Talks_example :
    Returns
      (λ r c. (r ≡ replies_heard) × (c.to_true ≡ []) × (c.to_false ≡ []))
      (dialogue cable (pos 0) end_at turns fresh_cable)
dialogue-Talks_example =
    dialogue-Talks cable end_at (pos 0) arriving 16 (cable-IsEnd (pos 0)) Talks-turns fresh_cable
      (omega arith) refl refl
