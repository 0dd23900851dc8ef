-- ===== src/Vaddr.antt =====
-- mount/lab2/pintos/src/threads/vaddr.h: addresses and pages. An address is a number below 2 ^ 32;
-- masks of the low bits are written as `%`, shifts as `/`.
use eda.Prelude.{ℕ, ◌+◌, ◌-◌, ◌*◌, ◌/◌, ◌%◌, ◌^◌, Bool, ltb, leb, Result, ok, ◌>>◌, assert}

abbrev pub address_mod : ℕ
address_mod = 2 ^ 32

-- `PGSIZE`
abbrev pub page_size : ℕ
page_size = 4096

-- `PHYS_BASE`
abbrev pub phys_base : ℕ
phys_base = 0xc000_0000

abbrev pub pg_ofs : ℕ → ℕ
pg_ofs va = va % page_size

abbrev pub pg_no : ℕ → ℕ
pg_no va = va / page_size

abbrev pub pg_round_up : ℕ → ℕ
pg_round_up va = (va + page_size - 1) % address_mod / page_size * page_size

abbrev pub pg_round_down : ℕ → ℕ
pg_round_down va = va / page_size * page_size

abbrev pub is_user_vaddr : ℕ → Bool
is_user_vaddr va = ltb va phys_base

abbrev pub is_kernel_vaddr : ℕ → Bool
is_kernel_vaddr va = leb phys_base va

unfoldable pub ptov : ℕ → Result ℕ
ptov paddr = assert (ltb paddr phys_base) >> ok ((paddr + phys_base) % address_mod)

unfoldable pub vtop : ℕ → Result ℕ
vtop vaddr = assert (is_kernel_vaddr vaddr) >> ok (vaddr - phys_base)
