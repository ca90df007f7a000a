-- ===== src/Terminal.antt =====
-- src/kernel.c: the text terminal. The video memory is the word at each index from 0xB8000, whatever
-- the index: nothing in the code keeps it on the screen.
pub mod Print
pub mod Clear
mod Tests
use peachos.Base.{
  ℕ, zero, suc, ◌+◌, ◌-◌, ◌*◌, ◌%◌, ◌^◌, bit_or, Option, none, some, List, [], ◌∷◌, get_elem?,
  ◌>>=◌, ltb, leb, ◌==◌, if◌then◌else◌,
}
use peachos.Stringos.{strlen}

abbrev pub vga_width : ℕ
vga_width = 80

abbrev pub vga_height : ℕ
vga_height = 20

abbrev pub newline : ℕ
newline = 0x0A

abbrev pub space : ℕ
space = 0x20

pub record Terminal : Type 0 where
  pub video_mem : ℕ → ℕ
  pub terminal_row : ℕ
  pub terminal_col : ℕ

-- The conversion of a char, which is signed, to an int, and of that to 16 bits.
abbrev pub promote : ℕ → ℕ
promote c = if ltb c 0x80 then c else c + (2 ^ 16 - 2 ^ 8)

unfoldable pub terminal_make_char : ℕ → ℕ → ℕ
terminal_make_char c colour = bit_or (promote colour * 2 ^ 8 % 2 ^ 16) (promote c)

unfoldable pub terminal_putchar : ℕ → ℕ → ℕ → ℕ → (ℕ → ℕ) → ℕ → ℕ
terminal_putchar x y c colour video_mem =
    λ i. if i == y * vga_width + x then terminal_make_char c colour else video_mem i

unfoldable pub terminal_writechar : ℕ → ℕ → Terminal → Terminal
terminal_writechar c colour t =
    if c == newline
    then record t { terminal_row = (t.terminal_row + 1) % 2 ^ 16; terminal_col = 0 }
    else let video_mem = terminal_putchar t.terminal_col t.terminal_row c colour t.video_mem in
      let col = (t.terminal_col + 1) % 2 ^ 16 in
      if leb vga_width col
      then record {
        video_mem = video_mem;
        terminal_row = (t.terminal_row + 1) % 2 ^ 16;
        terminal_col = 0;
      }
      else record { video_mem = video_mem; terminal_row = t.terminal_row; terminal_col = col }

-- The two loops of terminal_initialize, with the rounds left.
unfoldable pub clear_columns : ℕ → ℕ → ℕ → (ℕ → ℕ) → ℕ → ℕ
clear_columns zero x y video_mem = video_mem
clear_columns (suc n) x y video_mem =
    clear_columns n (x + 1) y (terminal_putchar x y space 0 video_mem)

unfoldable pub clear_rows : ℕ → ℕ → (ℕ → ℕ) → ℕ → ℕ
clear_rows zero y video_mem = video_mem
clear_rows (suc n) y video_mem = clear_rows n (y + 1) (clear_columns vga_width 0 y video_mem)

-- `video_mem` is what stands in the video memory.
unfoldable pub terminal_initialize : (ℕ → ℕ) → Terminal
terminal_initialize video_mem = record {
  video_mem = clear_rows vga_height 0 video_mem;
  terminal_row = 0;
  terminal_col = 0;
}

-- The loop of print over the bytes left, with the rounds left.
unfoldable pub print_loop : ℕ → List ℕ → Terminal → Option Terminal
print_loop zero str t = some t
print_loop (suc n) [] t = none
print_loop (suc n) (c ∷ str) t = print_loop n str (terminal_writechar c 15 t)

-- `none` is a read past the bytes of `str`.
unfoldable pub print : List ℕ → Terminal → Option Terminal
print str t = do len ← strlen str; print_loop len str t
