-- ===== src/Mm/Vmr.antt =====
-- kernel/mm/misc.cc: mapping and unmapping of areas, and the VMRs that record those of user space.
-- The context is there (the test for a null context has no case here), and the page tables are those
-- of `paging`. How the calls of the pool of VMRs end is an argument: `kima_alloc`, which may panic, and
-- `destroy_at` with `kima_free`, which may too.
pub mod Areas
pub mod Splitting
pub mod Calls
pub mod Recording
pub mod Mapping
pub mod Refusing
use pbos.Common.{
  ℕ, ◌+◌, ◌-◌, ◌%◌, ◌^◌, Bool, true, false, not, ◌&&◌, ◌||◌, Option, none, some, List, [], ◌∷◌, ltb,
  leb, ◌==◌, if◌then◌else◌,
}
use pbos.Kfxx.Ordered.{find, find_max_lteq, insert, remove, update}
use pbos.Ps.Mutex.{init_mutex}
use pbos.Mm.Context.{
  km_result_ok, km_result_invalid_args, km_result_no_mem, Vmr, Context, Paging, Outcome, returned,
  panicked, pgfloor, pgceil, last_byte, is_user_space, ignores_vmr, wants_user, lock_vmr,
  unlock_vmr, lock_kernel, unlock_kernel,
}

-- How `kima_alloc` ends: with memory, with null, or in a panic or a fault.
pub data Answer : Type 0 where
  given out_of_memory stopped : Answer

unfoldable pub differs : Bool → Bool → Bool
differs true b = not b
differs false b = b

-- Whether a VMR that starts at or below `p` reaches `p`.
unfoldable pub reaches : Option (ℕ × Vmr) → ℕ → Bool
unfolding last_byte
reaches none p = false
reaches (some (k, v)) p = leb p (last_byte k v.size)

-- The test of `mm_mmap` for VMRs that cover the area already.
unfoldable pub covered : List (ℕ × Vmr) → ℕ → ℕ → Bool
unfolding reaches find_max_lteq
covered [] base limit = false
covered (e ∷ m) base limit =
    reaches (find_max_lteq base (e ∷ m)) base || reaches (find_max_lteq limit (e ∷ m)) limit

abbrev pub new_vmr : ℕ → ℕ → Vmr
new_vmr size access = record { size = size; access = access; mutex = init_mutex }

module _ {P : Type 0} where
  -- The callback of `remove_vmr_guard`.
  unfoldable pub remove_vmr : ℕ → Context P → Context P
  unfolding remove
  remove_vmr base c = record c { vmr_tree = remove base c.vmr_tree }

  -- The block of `mm_mmap` under the VMR mutex that records the area; on its error paths
  -- `remove_vmr_guard` runs after the mutex is released.
  unfoldable pub record_vmr : Answer → Context P → ℕ → ℕ → ℕ → ℕ → ℕ → Outcome P
  unfolding remove_vmr covered find insert
  record_vmr answer c vaddr base limit size access =
      let held = lock_vmr c in
      if covered held.vmr_tree base limit
      then returned km_result_invalid_args (remove_vmr base (unlock_vmr held))
      else elim answer [
        | stopped ↦ panicked
        | out_of_memory ↦ returned km_result_no_mem (remove_vmr base (unlock_vmr held))
        | given ↦ elim (find vaddr held.vmr_tree) [
          | none ↦ returned km_result_ok (
              unlock_vmr
                (record held { vmr_tree = insert vaddr (new_vmr size access) held.vmr_tree }))
          | some v ↦ panicked
        ]
      ]

  module _ (paging : Paging P) where
    -- The end of `mm_mmap`: the pages, under `ki_kernel_mmap_mutex` for the kernel's space; when
    -- they cannot be mapped, `remove_vmr_guard` runs unless it was released.
    unfoldable pub map_pages : Bool → Bool → Context P → ℕ → ℕ → ℕ → ℕ → ℕ → Outcome P
    unfolding remove_vmr
    map_pages user guarded c base paddr size access flags =
        let held = if user then c else lock_kernel c in
        let r = paging.mmap held.page_table base paddr size access flags in
        let mapped = record held { page_table = r.1 } in
        let after = if user then mapped else unlock_kernel mapped in
        if r.0 == 0
        then returned km_result_ok after
        else if guarded
        then returned r.0 (remove_vmr base after)
        else returned r.0 after

    -- The rest of `mm_mmap` after the block that records the area.
    unfoldable pub and_map : Outcome P → ℕ → ℕ → ℕ → ℕ → ℕ → Outcome P
    unfolding map_pages
    and_map panicked base paddr size access flags = panicked
    and_map (returned code c) base paddr size access flags =
        if code == 0 then map_pages true true c base paddr size access flags else returned code c

    -- `mm_mmap`.
    unfoldable pub mmap : Answer → Context P → ℕ → ℕ → ℕ → ℕ → ℕ → Outcome P
    unfolding and_map record_vmr map_pages differs is_user_space ignores_vmr wants_user pgfloor
        pgceil last_byte
    mmap answer c vaddr paddr size access flags =
        let base = pgfloor vaddr in
        let aligned_paddr = pgfloor paddr in
        let aligned_size = pgceil size in
        let limit = last_byte base size in
        let user = is_user_space base in
        if size == 0
        then returned km_result_invalid_args c
        else if ltb (2 ^ 64 - 1 - base) aligned_size
        then returned km_result_invalid_args c
        else if differs user (is_user_space limit)
        then returned km_result_invalid_args c
        else if not user && wants_user access
        then returned km_result_invalid_args c
        else if user && not (ignores_vmr flags)
        then and_map (record_vmr answer c vaddr base limit size access) base aligned_paddr
            aligned_size access flags
        else map_pages user false c base aligned_paddr aligned_size access flags

    -- The end of `mm_unmmap`.
    unfoldable pub unmap_pages : Bool → Context P → ℕ → ℕ → ℕ → Outcome P
    unmap_pages user c base size flags =
        let held = if user then c else lock_kernel c in
        let unmapped = record held { page_table = paging.unmmap held.page_table base size flags } in
        returned km_result_ok (if user then unmapped else unlock_kernel unmapped)

    -- `mm_unmmap`.
    unfoldable pub unmmap : Context P → ℕ → ℕ → ℕ → Outcome P
    unfolding unmap_pages differs is_user_space ignores_vmr pgfloor pgceil last_byte find remove
    unmmap c vaddr size flags =
        let base = pgfloor vaddr in
        let limit = last_byte base size in
        let user = is_user_space base in
        if size == 0
        then returned km_result_invalid_args c
        else if ltb (2 ^ 64 - 1 - base) (pgceil size)
        then returned km_result_invalid_args c
        else if differs user (is_user_space limit)
        then returned km_result_invalid_args c
        else if not (ignores_vmr flags) && user
        then (let held = lock_vmr c in
            elim (find vaddr held.vmr_tree) [
              | none ↦ returned km_result_invalid_args (unlock_vmr held)
              | some v ↦
                  if not (size == 0)
                  then returned km_result_invalid_args (unlock_vmr held)
                  else unmap_pages user
                      (unlock_vmr (record held { vmr_tree = remove vaddr held.vmr_tree })) base
                      (pgceil v.size) flags
            ])
        else unmap_pages user c base (pgceil size) flags

    -- `mm_set_page_access`.
    unfoldable pub set_page_access : Context P → ℕ → ℕ → ℕ → Outcome P
    unfolding differs is_user_space pgfloor last_byte find update
    set_page_access c vaddr size access =
        let base = pgfloor vaddr in
        let limit = last_byte base size in
        let user = is_user_space base in
        let set = λ (d : Context P).
          returned km_result_ok
            (record d { page_table = paging.set_page_access d.page_table vaddr size access }) in
        if size == 0
        then returned km_result_invalid_args c
        else if differs user (is_user_space limit)
        then returned km_result_invalid_args c
        else if user
        then (let held = lock_vmr c in
            elim (find vaddr held.vmr_tree) [
              | none ↦ returned km_result_invalid_args (unlock_vmr held)
              | some v ↦
                  if not (v.size == size)
                  then returned km_result_invalid_args (unlock_vmr held)
                  else set (
                      unlock_vmr (record held {
                        vmr_tree = update vaddr (record v { access = access }) held.vmr_tree;
                      }))
            ])
        else set c

    -- `mm_vmalloc`: the address, 0 when there is none, and the context.
    unfoldable pub vmalloc : Context P → ℕ → ℕ → ℕ → ℕ → ℕ → ℕ × Context P
    unfolding differs is_user_space pgfloor
    vmalloc c minaddr maxaddr size access flags =
        let user = is_user_space (pgfloor minaddr) in
        if differs user (is_user_space (pgfloor maxaddr))
        then (0, c)
        else (let held = if user then lock_vmr c else lock_kernel c in
            let r = paging.vmalloc held.page_table minaddr maxaddr size access flags in
            let found = record held { page_table = r.1 } in
            (r.0, if user then unlock_vmr found else unlock_kernel found))

  -- `mm_merge_mapped_area`; the first argument says whether `destroy_at` and `kima_free` of the VMR
  -- that is taken out return.
  unfoldable pub merge_mapped_area : Bool → Context P → ℕ → ℕ → Outcome P
  unfolding find update remove
  merge_mapped_area released c vaddr_a vaddr_b =
      if leb vaddr_b vaddr_a
      then returned km_result_invalid_args c
      else (let held = lock_vmr c in
          elim (find vaddr_a held.vmr_tree) [
            | none ↦ returned km_result_invalid_args (unlock_vmr held)
            | some a ↦ elim (find vaddr_b held.vmr_tree) [
              | none ↦ returned km_result_invalid_args (unlock_vmr held)
              | some b ↦
                  if (vaddr_a + a.size) % 2 ^ 64 == vaddr_b
                  then if not released
                    then panicked
                    else (let grown = record a { size = (a.size + b.size) % 2 ^ 64 } in
                        returned km_result_ok (
                          unlock_vmr (record held {
                            vmr_tree = remove vaddr_b (update vaddr_a grown held.vmr_tree);
                          })))
                  else returned km_result_invalid_args (unlock_vmr held)
            ]
          ])

  -- `mm_split_mapped_area`.
  unfoldable pub split_mapped_area : Answer → Context P → ℕ → ℕ → Outcome P
  unfolding find insert update
  split_mapped_area answer c area_vaddr split_point =
      if leb split_point area_vaddr
      then returned km_result_invalid_args c
      else (let held = lock_vmr c in
          elim (find area_vaddr held.vmr_tree) [
            | none ↦ returned km_result_invalid_args (unlock_vmr held)
            | some v ↦
                let end_of = (area_vaddr + v.size) % 2 ^ 64 in
                if leb end_of split_point
                then returned km_result_invalid_args (unlock_vmr held)
                else elim answer [
                  | stopped ↦ panicked
                  | out_of_memory ↦ returned km_result_no_mem (unlock_vmr held)
                  | given ↦ elim (find split_point held.vmr_tree) [
                    | none ↦
                        (let upper = new_vmr (end_of - split_point) v.access in
                          let lower = record v { size = split_point - area_vaddr } in
                          returned km_result_ok (
                            unlock_vmr (record held {
                              vmr_tree =
                                  update area_vaddr lower (insert split_point upper held.vmr_tree);
                            })))
                    | some w ↦ panicked
                  ]
                ]
          ])
