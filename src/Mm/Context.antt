-- ===== src/Mm/Context.antt =====
-- `mm_context_t` and `mm_vmr_t` of include/pbos/ki/mm/context.hh, the page arithmetic of
-- arch/x86_64/memconf.h, and the page tables as kernel/mm/misc.cc uses them. Addresses and sizes
-- are 64-bit words.
use pbos.Common.{ℕ, ◌+◌, ◌-◌, ◌/◌, ◌%◌, ◌^◌, Bool, List, ltb, ◌==◌}
use pbos.Ps.Mutex.{Mutex}

-- `km_result_t`: the codes of include/pbos/km/result.h that kernel/mm/misc.cc returns.
abbrev pub km_result_ok : ℕ
km_result_ok = 0

abbrev pub km_result_invalid_args : ℕ
km_result_invalid_args = 3

abbrev pub km_result_no_mem : ℕ
km_result_no_mem = 4

-- `mm_vmr_t` but for the node that holds it, whose key is its address.
pub record Vmr : Type 0 where
  pub size : ℕ
  pub access : ℕ
  pub mutex : Mutex

-- `mm_context_t`: the contents of its VMR tree, how many times its VMR mutex is held, how many times
-- `ki_kernel_mmap_mutex` is, and the page table.
pub record Context (P : Type 0) : Type 0 where
  pub vmr_tree : List (ℕ × Vmr)
  pub vmr_locks : ℕ
  pub kernel_locks : ℕ
  pub page_table : P

-- What the HAL does to a page table: `kh_mmap`, `kh_unmmap`, `kh_set_page_access`, `kh_vmalloc`.
pub record Paging (P : Type 0) : Type 0 where
  pub mmap : P → ℕ → ℕ → ℕ → ℕ → ℕ → ℕ × P
  pub unmmap : P → ℕ → ℕ → ℕ → P
  pub set_page_access : P → ℕ → ℕ → ℕ → P
  pub vmalloc : P → ℕ → ℕ → ℕ → ℕ → ℕ → ℕ × P

-- How a call ends: with a result code, or in a panic or a fault.
pub data Outcome (P : Type 0) : Type 0 where
  returned : (code : ℕ) → (context : Context P) → Outcome P
  panicked : Outcome P

-- `PGFLOOR` and `PGCEIL`.
unfoldable pub pgfloor : ℕ → ℕ
pgfloor x = x - x % 4096

unfoldable pub pgceil : ℕ → ℕ
unfolding pgfloor
pgceil x = pgfloor ((x + 4095) % 2 ^ 64)

-- The address of the last of `size` bytes at `base`: `(char *)base + (size - 1)`.
unfoldable pub last_byte : ℕ → ℕ → ℕ
last_byte base size = (base + size + (2 ^ 64 - 1)) % 2 ^ 64

-- `mm_is_user_space` of hal/x86_64/mm/misc.cc.
unfoldable pub is_user_space : ℕ → Bool
is_user_space p = ltb p (2 ^ 47)

-- `flags & MMAP_IGNORE_VMR` and `access & MM_PAGE_USER`.
unfoldable pub ignores_vmr : ℕ → Bool
ignores_vmr flags = flags / 2 ^ 30 % 2 == 1

unfoldable pub wants_user : ℕ → Bool
wants_user access = access / 2 ^ 5 % 2 == 1

module _ {P : Type 0} where
  -- `ki_mm_lock_vmr`, `ki_mm_unlock_vmr`, and the same for `ki_kernel_mmap_mutex`.
  abbrev pub lock_vmr : Context P → Context P
  lock_vmr c = record c { vmr_locks = c.vmr_locks + 1 }

  abbrev pub unlock_vmr : Context P → Context P
  unlock_vmr c = record c { vmr_locks = c.vmr_locks - 1 }

  abbrev pub lock_kernel : Context P → Context P
  lock_kernel c = record c { kernel_locks = c.kernel_locks + 1 }

  abbrev pub unlock_kernel : Context P → Context P
  unlock_kernel c = record c { kernel_locks = c.kernel_locks - 1 }
