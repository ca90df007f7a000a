-- ===== src/Status.antt =====
-- status.h: the error codes, and the result of a function that returns one of them negated.
use peachos.Base.{ℕ}

pub data Errno : Type 0 where
  eio einvagr enomem ebadpath efsnotus erdonly eunimp eistkn einformat : Errno

-- `return -E…` or a value; PEACHOS_ALL_OK is `ok tt`.
pub data Result {ℓ} (A : Type ℓ) : Type ℓ where
  ok : A → Result A
  err : Errno → Result A

abbrev pub errno_code : Errno → ℕ
errno_code eio = 1
errno_code einvagr = 2
errno_code enomem = 3
errno_code ebadpath = 4
errno_code efsnotus = 5
errno_code erdonly = 6
errno_code eunimp = 7
errno_code eistkn = 8
errno_code einformat = 9
