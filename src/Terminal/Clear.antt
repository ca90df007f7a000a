-- ===== src/Terminal/Clear.antt =====
-- The cleared screen of terminal_initialize.
use peachos.Base.{
  ℕ, zero, suc, ◌+◌, ◌*◌, ◌≤◌, ◌<◌, ◌≡◌, refl, ap, ◌∙◌, sym, arith, ◌==◌, if◌then◌else◌,
}
use peachos.Memory.Fill.{fill, fill-after, fill-inside}
use peachos.Terminal.{
  vga_width, vga_height, space, terminal_make_char, terminal_putchar, clear_columns, clear_rows,
  terminal_initialize,
}
use peachos.Terminal.Print.{cell}

clear_columns-fill :
    (n x y : ℕ) (m : ℕ → ℕ)
    → clear_columns n x y m ≡ fill n (y * vga_width + x) (terminal_make_char space 0) m
unfolding clear_columns fill terminal_putchar
clear_columns-fill zero x y m = refl
clear_columns-fill (suc n) x y m =
    let next : y * vga_width + (x + 1) ≡ y * vga_width + x + 1 = omega arith in
    clear_columns-fill n (x + 1) y (terminal_putchar x y space 0 m)
    ∙ ap (λ p. fill n p (terminal_make_char space 0) (terminal_putchar x y space 0 m)) next

fill-fill : (a b p c : ℕ) (m : ℕ → ℕ) → fill b (p + a) c (fill a p c m) ≡ fill (a + b) p c m
unfolding fill
fill-fill zero b p c m =
    let here : p + 0 ≡ p = omega arith in
    let all : 0 + b ≡ b = omega arith in
    ap (λ q. fill b q c m) here ∙ ap (λ k. fill k p c m) (sym all)
fill-fill (suc a) b p c m =
    let next : p + suc a ≡ p + 1 + a = omega arith in
    let all : suc a + b ≡ suc (a + b) = omega arith in
    let m' : ℕ → ℕ = λ i. if i == p then c else m i in
    ap (λ q. fill b q c (fill a (p + 1) c m')) next
    ∙ fill-fill a b (p + 1) c m'
    ∙ ap (λ k. fill k p c m) (sym all)

clear_rows-fill :
    (n y : ℕ) (m : ℕ → ℕ)
    → clear_rows n y m ≡ fill (n * vga_width) (y * vga_width) (terminal_make_char space 0) m
unfolding clear_rows fill
clear_rows-fill zero y m = refl
clear_rows-fill (suc n) y m =
    let w = terminal_make_char space 0 in
    let start : y * vga_width + 0 ≡ y * vga_width = omega arith in
    let next : (y + 1) * vga_width ≡ y * vga_width + vga_width = omega arith in
    let all : vga_width + n * vga_width ≡ suc n * vga_width = omega arith in
    clear_rows-fill n (y + 1) (clear_columns vga_width 0 y m)
    ∙ ap (fill (n * vga_width) ((y + 1) * vga_width) w)
        (clear_columns-fill vga_width 0 y m ∙ ap (λ p. fill vga_width p w m) start)
    ∙ ap (λ p. fill (n * vga_width) p w (fill vga_width (y * vga_width) w m)) next
    ∙ fill-fill vga_width (n * vga_width) (y * vga_width) w m
    ∙ ap (λ k. fill k (y * vga_width) w m) all

-- terminal_initialize puts the cursor at the start, makes every cell of the 20 rows a space, and
-- leaves the words behind them as they are.
pub terminal_initialize-clears :
    (m : ℕ → ℕ)
    → let t = terminal_initialize m in
      (cell t ≡ 0)
      × ((i : ℕ) → i < vga_height * vga_width → t.video_mem i ≡ terminal_make_char space 0)
      × ((i : ℕ) → vga_height * vga_width ≤ i → t.video_mem i ≡ m i)
unfolding terminal_initialize
terminal_initialize-clears m =
    let w = terminal_make_char space 0 in
    (
      refl,
      λ i h.
          ap (λ f. f i) (clear_rows-fill vga_height 0 m)
          ∙ fill-inside (vga_height * vga_width) (0 * vga_width) w i m (omega arith) (omega arith),
      λ i h.
          ap (λ f. f i) (clear_rows-fill vga_height 0 m)
          ∙ fill-after (vga_height * vga_width) (0 * vga_width) w i m (omega arith),
    )
