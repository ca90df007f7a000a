-- ===== src/Terminal/Print.antt =====
-- print on the terminal as a line of cells: the cell at column `x` of row `y` is y * 80 + x.
use peachos.Base.{
  ℕ, zero, suc, ◌+◌, ◌*◌, ◌/◌, ◌^◌, ◌≤◌, ◌<◌, ◌≡◌, ◌≢◌, refl, ap, ◌∙◌, true, false, some, List, [],
  ◌∷◌, ◌++◌, arith, length, get_elem?, ◌⊎◌, inl, inr, ◌==◌, if◌then◌else◌, ◌%◌, leb, dec_lt,
  Bool-cases, ne→==,
}
use peachos.Stringos.Laws.{NonZero, strlen-length}
use peachos.Terminal.{
  Terminal, vga_width, newline, terminal_make_char, terminal_putchar, terminal_writechar,
  print_loop, print,
}

abbrev pub cell : Terminal → ℕ
cell t = t.terminal_row * vga_width + t.terminal_col

-- The cell after the text, from cell `p` on.
unfoldable pub cell_after : List ℕ → ℕ → ℕ
cell_after [] p = p
cell_after (c ∷ text) p =
    cell_after text (if c == newline then (p / vga_width + 1) * vga_width else p + 1)

-- The screen after the text.
unfoldable pub shown : List ℕ → ℕ → (ℕ → ℕ) → ℕ → ℕ
shown [] p screen i = screen i
shown (c ∷ text) p screen i =
    if c == newline
    then shown text ((p / vga_width + 1) * vga_width) screen i
    else shown text (p + 1) (λ j. if j == p then terminal_make_char c 15 else screen j) i

writechar_newline :
    (c : ℕ) (t : Terminal)
    → (c == newline) ≡ true
    → t.terminal_row + 1 < 2 ^ 16
    → let t' = terminal_writechar c 15 t in
      (t'.terminal_col ≡ 0) × (t'.terminal_row ≡ t.terminal_row + 1) × (t'.video_mem ≡ t.video_mem)
unfolding terminal_writechar
writechar_newline c t e room = (ground arith, ground arith, rw e refl)

writechar_shown :
    (c : ℕ) (t : Terminal)
    → (c == newline) ≡ false
    → t.terminal_col < vga_width
    → t.terminal_row + 1 < 2 ^ 16
    → let t' = terminal_writechar c 15 t in
      (t'.terminal_col < vga_width)
      × (t'.terminal_row ≤ t.terminal_row + 1)
      × (cell t' ≡ cell t + 1)
      × (t'.video_mem ≡ terminal_putchar t.terminal_col t.terminal_row c 15 t.video_mem)
unfolding terminal_writechar
writechar_shown c t e in_row room = elim (dec_lt (t.terminal_col + 1) vga_width) [
  | yes more ↦
      let b : leb vga_width ((t.terminal_col + 1) % 2 ^ 16) ≡ false = ground arith in
      rw (e, b) (omega arith, omega arith, omega arith, refl)
  | no last ↦
      let b : leb vga_width ((t.terminal_col + 1) % 2 ^ 16) ≡ true = ground arith in
      rw (e, b) (omega arith, omega arith, omega arith, refl)
]

putchar_cell :
    (c : ℕ) (t : Terminal)
    → terminal_putchar t.terminal_col t.terminal_row c 15 t.video_mem
      ≡ (λ j. if j == cell t then terminal_make_char c 15 else t.video_mem j)
unfolding terminal_putchar
putchar_cell c t = refl

print_loop-shown :
    (text rest : List ℕ) (t : Terminal)
    → t.terminal_col < vga_width
    → t.terminal_row + length text < 2 ^ 16
    → (t' : Terminal) × (print_loop (length text) (text ++ rest) t ≡ some t')
      × (t'.terminal_col < vga_width)
      × (cell t' ≡ cell_after text (cell t))
      × ((i : ℕ) → t'.video_mem i ≡ shown text (cell t) t.video_mem i)
unfolding print_loop cell_after shown
print_loop-shown [] rest t in_row room = (t, refl, in_row, refl, λ i. refl)
print_loop-shown (c ∷ text) rest t in_row room = elim (Bool-cases (c == newline)) [
  | inl e ↦
      let (col, row, mem) = writechar_newline c t e (omega arith) in
      let (t', ran, in_row', at, same) =
        print_loop-shown text rest (terminal_writechar c 15 t) (omega arith) (omega arith) in
      let next : cell (terminal_writechar c 15 t) ≡ (cell t / vga_width + 1) * vga_width =
        omega arith in
      (
        t',
        ran,
        in_row',
        rw e (at ∙ ap (cell_after text) next),
        λ i. rw e (
            same i
            ∙ ap (λ p. shown text p (terminal_writechar c 15 t).video_mem i) next
            ∙ ap (λ m. shown text ((cell t / vga_width + 1) * vga_width) m i) mem),
      )
  | inr e ↦
      let (col, row, next, mem) = writechar_shown c t e in_row (omega arith) in
      let (t', ran, in_row', at, same) =
        print_loop-shown text rest (terminal_writechar c 15 t) col (omega arith) in
      (
        t',
        ran,
        in_row',
        rw e (at ∙ ap (cell_after text) next),
        λ i. rw e (
            same i
            ∙ ap (λ p. shown text p (terminal_writechar c 15 t).video_mem i) next
            ∙ ap (λ m. shown text (cell t + 1) m i) (mem ∙ putchar_cell c t)),
      )
]

abbrev pub NoNewline : List ℕ → Type 0
NoNewline [] = Unit
NoNewline (c ∷ text) = (c ≢ newline) × NoNewline text

cell_after-line : (text : List ℕ) (p : ℕ) → NoNewline text → cell_after text p ≡ p + length text
unfolding cell_after
cell_after-line [] p plain = omega arith
cell_after-line (c ∷ text) p plain =
    rw (ne→== c newline plain.0) (cell_after-line text (p + 1) plain.1 ∙ omega arith)

shown-outside :
    (text : List ℕ) (p : ℕ) (screen : ℕ → ℕ) (i : ℕ)
    → NoNewline text
    → (i < p) ⊎ (p + length text ≤ i)
    → shown text p screen i ≡ screen i
unfolding shown
shown-outside [] p screen i plain out = refl
shown-outside (c ∷ text) p screen i plain out =
    let apart : (i == p) ≡ false = ground arith in
    rw (ne→== c newline plain.0) (
      shown-outside text (p + 1) (λ j. if j == p then terminal_make_char c 15 else screen j) i
        plain.1 (ground arith)
      ∙ rw apart refl)

shown-inside :
    (text : List ℕ) (p : ℕ) (screen : ℕ → ℕ) (i c : ℕ)
    → NoNewline text
    → get_elem? text i ≡ some c
    → shown text p screen (p + i) ≡ terminal_make_char c 15
unfolding shown
shown-inside [] p screen i c plain e = absurd (cc)
shown-inside (x ∷ text) p screen zero c plain e =
    let here : (p + 0 == p) ≡ true = ground arith in
    rw (ne→== x newline plain.0) (
      shown-outside text (p + 1) (λ j. if j == p then terminal_make_char x 15 else screen j) (p + 0)
        plain.1 (inl (omega arith))
      ∙ rw here (ap (λ y. terminal_make_char y 15) (cc)))
shown-inside (x ∷ text) p screen (suc i) c plain e =
    let place : p + suc i ≡ p + 1 + i = omega arith in
    rw (ne→== x newline plain.0, place)
      (shown-inside text (p + 1) (λ j. if j == p then terminal_make_char x 15 else screen j) i c
        plain.1 e)

-- Text with newlines, while the rows stay below 2^16: print types each character at the cursor,
-- which a newline moves to the start of the next row. It keeps the column inside the row, and does
-- not look whether the row is on the screen.
pub print-shown :
    (text rest : List ℕ) (t : Terminal)
    → NonZero text
    → t.terminal_col < vga_width
    → t.terminal_row + length text < 2 ^ 16
    → (t' : Terminal) × (print (text ++ (0 ∷ rest)) t ≡ some t')
      × (t'.terminal_col < vga_width)
      × (cell t' ≡ cell_after text (cell t))
      × ((i : ℕ) → t'.video_mem i ≡ shown text (cell t) t.video_mem i)
unfolding print
print-shown text rest t is_text in_row room =
    rw (strlen-length text rest is_text) (print_loop-shown text (0 ∷ rest) t in_row room)

-- Text without a newline, while the rows stay below 2^16: print writes it to the cells from the
-- cursor on, across the ends of rows, changes no other cell, and leaves the cursor behind it.
pub print-line :
    (text rest : List ℕ) (t : Terminal)
    → NonZero text
    → NoNewline text
    → t.terminal_col < vga_width
    → t.terminal_row + length text < 2 ^ 16
    → (t' : Terminal) × (print (text ++ (0 ∷ rest)) t ≡ some t')
      × (t'.terminal_col < vga_width)
      × (cell t' ≡ cell t + length text)
      × ((i c : ℕ)
          → get_elem? text i ≡ some c
          → t'.video_mem (cell t + i) ≡ terminal_make_char c 15)
      × ((i : ℕ) → (i < cell t) ⊎ (cell t + length text ≤ i) → t'.video_mem i ≡ t.video_mem i)
print-line text rest t is_text plain in_row room =
    let (t', ran, in_row', at, same) = print-shown text rest t is_text in_row room in
    (
      t',
      ran,
      in_row',
      at ∙ cell_after-line text (cell t) plain,
      λ i c e. same (cell t + i) ∙ shown-inside text (cell t) t.video_mem i c plain e,
      λ i out. same i ∙ shown-outside text (cell t) t.video_mem i plain out,
    )
