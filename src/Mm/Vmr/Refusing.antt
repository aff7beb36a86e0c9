-- ===== src/Mm/Vmr/Refusing.antt =====
-- Requests that `mm_mmap` and `mm_unmmap` refuse.
use pbos.Common.{
  ℕ, ap, ◌∙◌, subst, not, ◌&&◌, none, List, [], ◌∷◌, ◌+◌, ◌^◌, ◌<◌, ◌≡◌, true, false, some, inl,
  inr, Option-cases, arith,
}
use pbos.Kfxx.Ordered.{find, find_max_lteq, insert, remove, IsSorted}
use pbos.Kfxx.Ordered.Laws.{Above-IsSorted}
use pbos.Mm.Context.{
  km_result_ok, km_result_invalid_args, last_byte, Vmr, Context, Paging, returned, pgfloor,
  is_user_space, ignores_vmr,
}
use pbos.Mm.Vmr.{Answer, new_vmr, mmap, unmmap}
use pbos.Mm.Vmr.Mapping.{Maps, mmap-Maps}

remove-insert :
    (k : ℕ) (v : Vmr) (m : List (ℕ × Vmr)) → find k m ≡ none → remove k (insert k v m) ≡ m
unfolding find insert remove
remove-insert k v [] n = ground arith
remove-insert k v ((j, w) ∷ m) n = ground (arith, n, remove-insert k v m)

find_max_lteq-insert :
    (k : ℕ) (v : Vmr) (m : List (ℕ × Vmr))
    → IsSorted m
    → find k m ≡ none
    → find_max_lteq k (insert k v m) ≡ some (k, v)
unfolding find insert find_max_lteq
find_max_lteq-insert k v [] s n = ground arith
find_max_lteq-insert k v ((j, w) ∷ m) s n =
    ground (arith, n, find_max_lteq-insert k v m (Above-IsSorted j m s))

records :
    (vaddr size flags : ℕ)
    → pgfloor vaddr ≡ vaddr
    → vaddr + size < 2 ^ 47
    → ignores_vmr flags ≡ false
    → (is_user_space (pgfloor vaddr) && not (ignores_vmr flags)) ≡ true
unfolding is_user_space
records vaddr size flags aligned fits flag = rw (aligned, flag) (ground (arith, fits))

module _ {P : Type 0} (paging : Paging P) where
  -- A request for an area inside user space, VMRs not being ignored, at whose first page a VMR
  -- begins that is not empty and does not pass the end of the address space, is refused as invalid
  -- arguments, and that VMR is removed.
  pub mmap-removes :
      (answer : Answer) (c : Context P) (vaddr paddr size access flags : ℕ) (v : Vmr)
      → 0 < size
      → pgfloor vaddr + size < 2 ^ 47
      → ignores_vmr flags ≡ false
      → find_max_lteq (pgfloor vaddr) c.vmr_tree ≡ some (pgfloor vaddr, v)
      → 0 < v.size
      → pgfloor vaddr + v.size < 2 ^ 64
      → mmap paging answer c vaddr paddr size access flags
        ≡ returned km_result_invalid_args
            (record c { vmr_tree = remove (pgfloor vaddr) c.vmr_tree })
  unfolding mmap
  mmap-removes answer c vaddr paddr size access flags v pos fits flag f vpos vfits =
      ground (arith, f)

  -- From VMRs in order, for two areas in user space, neither empty, that begin at the same page, VMRs
  -- not being ignored: where a call of `mm_mmap` for the first succeeds, one for the second is refused
  -- as invalid arguments, whatever `kima_alloc` would do, and takes the VMR away that the first has
  -- recorded: the VMRs are what they were before both calls, but the page table is what the first
  -- left.
  pub mmap-mmap :
      (answer again : Answer) (c d : Context P)
      (vaddr paddr size access flags next_paddr next_size next_access next_flags : ℕ)
      → IsSorted c.vmr_tree
      → pgfloor vaddr ≡ vaddr
      → 0 < size
      → vaddr + size < 2 ^ 47
      → ignores_vmr flags ≡ false
      → mmap paging answer c vaddr paddr size access flags ≡ returned km_result_ok d
      → 0 < next_size
      → vaddr + next_size < 2 ^ 47
      → ignores_vmr next_flags ≡ false
      → mmap paging again d vaddr next_paddr next_size next_access next_flags
        ≡ returned km_result_invalid_args (record d { vmr_tree = c.vmr_tree })
  mmap-mmap answer again c d vaddr paddr size access flags next_paddr next_size next_access
        next_flags s aligned pos fits flag first next_pos next_fits next_flag =
      let m : Maps true answer c vaddr (pgfloor vaddr) (last_byte (pgfloor vaddr) size) size access
          (returned km_result_ok d) =
        subst
          (λ b.
            Maps b answer c vaddr (pgfloor vaddr) (last_byte (pgfloor vaddr) size) size access
              (returned km_result_ok d))
          (records vaddr size flags aligned fits flag)
          (subst
            (Maps (is_user_space (pgfloor vaddr) && not (ignores_vmr flags)) answer c vaddr
              (pgfloor vaddr) (last_byte (pgfloor vaddr) size) size access)
            first (mmap-Maps paging answer c vaddr paddr size access flags s)) in
      let absent = m.1.1 in
      let tree = m.1.2 in
      let v = new_vmr size access in
      let found : find_max_lteq (pgfloor vaddr) d.vmr_tree ≡ some (pgfloor vaddr, v) =
        rw (aligned, tree) (find_max_lteq-insert vaddr v c.vmr_tree s absent) in
      let refused =
        mmap-removes again d vaddr next_paddr next_size next_access next_flags v next_pos
          (omega (arith, aligned, next_fits)) next_flag found pos (omega (arith, aligned, fits)) in
      let gone : remove (pgfloor vaddr) d.vmr_tree ≡ c.vmr_tree =
        rw (aligned, tree) (remove-insert vaddr v c.vmr_tree absent) in
      refused
      ∙ ap (λ (n : List (ℕ × Vmr)). returned km_result_invalid_args (record d { vmr_tree = n }))
          gone

  -- A call of `mm_unmmap` in user space that does not ignore VMRs is refused as invalid arguments,
  -- whatever its address and size, and changes nothing.
  pub unmmap-refused :
      (c : Context P) (vaddr size flags : ℕ)
      → is_user_space (pgfloor vaddr) ≡ true
      → ignores_vmr flags ≡ false
      → unmmap paging c vaddr size flags ≡ returned km_result_invalid_args c
  unfolding unmmap
  unmmap-refused c vaddr size flags user flag = elim (Option-cases (find vaddr c.vmr_tree)) [
    | inl n ↦ ground (arith, n)
    | inr (v, f) ↦ ground (arith, f)
  ]
