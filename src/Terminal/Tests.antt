-- ===== src/Terminal/Tests.antt =====
-- The theorems on a short text at the end of a row, and the cleared screen.
use peachos.Base.{
  ℕ, ◌+◌, ◌≤◌, ◌<◌, ◌≡◌, refl, arith, some, none, List, [], ◌∷◌, ◌++◌, length, get_elem?, ◌⊎◌,
}
use peachos.Terminal.{
  Terminal, vga_width, terminal_make_char, terminal_writechar, print_loop, print,
}
use peachos.Stringos.{strlen}
use peachos.Terminal.Print.{cell, print-line}

abbrev blank : ℕ → ℕ
blank i = 0x20

abbrev near_end : Terminal
near_end = record { video_mem = blank; terminal_row = 3; terminal_col = 78 }

abbrev text : List ℕ
text = b'k' ∷ b'e' ∷ b'r' ∷ b'n' ∷ []

abbrev lines : List ℕ
lines = b'H' ∷ b'i' ∷ 0x0A ∷ b'T' ∷ []

print-line_example :
    (t' : Terminal) × (print (text ++ (0 ∷ [])) near_end ≡ some t')
    × (t'.terminal_col < vga_width)
    × (cell t' ≡ cell near_end + length text)
    × ((i c : ℕ)
        → get_elem? text i ≡ some c
        → t'.video_mem (cell near_end + i) ≡ terminal_make_char c 15)
    × ((i : ℕ) → (i < cell near_end) ⊎ (cell near_end + length text ≤ i) → t'.video_mem i ≡ blank i)
print-line_example =
    print-line text [] near_end (omega arith, (omega arith, (omega arith, (omega arith, tt))))
      (omega arith, (omega arith, (omega arith, (omega arith, tt)))) (omega arith) (omega arith)

abbrev cursor_of : List ℕ → ℕ × ℕ
cursor_of str = elim (print (str ++ (0 ∷ [])) near_end) [
  | none ↦ (0, 0)
  | some t ↦ (t.terminal_row, t.terminal_col)
]

print_lines : cursor_of lines ≡ (5, 1)
unfolding print strlen print_loop terminal_writechar
print_lines = refl

make_char_signed : terminal_make_char 0x80 0 ≡ 0xFF80
unfolding terminal_make_char
make_char_signed = refl
