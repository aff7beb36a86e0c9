-- ===== src/Mm/Probe.antt =====
-- kernel/mm/misc.cc: `mm_probe_and_lock_pages` and `mm_unlock_pages`. The VMR mutex is held during
-- the walks; the mutexes of the areas are the trace of what is locked and unlocked.
pub mod Covering
pub mod Range
use pbos.Common.{
  ℕ, zero, suc, ◌+◌, ◌-◌, ◌/◌, ◌%◌, ◌^◌, Bool, true, false, not, ◌&&◌, ◌||◌, Option, none, some,
  List, [], ◌∷◌, ◌++◌, length, ltb, ◌==◌, if◌then◌else◌,
}
use pbos.Kfxx.Ordered.{find_max_lteq, next_above}
use pbos.Mm.Context.{
  Vmr, pgfloor, pgceil, last_byte, is_user_space, wants_user, km_result_ok, km_result_invalid_args,
}
use pbos.Mm.Vmr.{differs}

abbrev pub km_result_access_violation : ℕ
km_result_access_violation = 17

-- `ki_mm_lock_area` and `ki_mm_unlock_area` of the area at an address.
pub data Event : Type 0 where
  locks : ℕ → Event
  unlocks : ℕ → Event

-- How a call ends: with a code, after what it locked and unlocked; or with a failed assertion or a
-- panic; or out of fuel.
pub data Probed : Type 0 where
  ended : ℕ → List Event → Probed
  panicked : Probed
  endless : Probed

-- How the walk over the areas ends: behind the last area, at an area that does not pass, or out of
-- fuel.
pub data Walked : Type 0 where
  passed : ℕ × Vmr → List Event → Walked
  stopped : ℕ → List Event → Walked
  out_of_fuel : Walked

-- `required & flag` and not `access & flag`, of a flag of weight `w`.
unfoldable pub lacks : ℕ → ℕ → ℕ → Bool
lacks w required access = required / w % 2 == 1 && not (access / w % 2 == 1)

-- Reading, writing and executing.
unfoldable pub denies : ℕ → ℕ → Bool
unfolding lacks
denies required access =
    lacks 2 required access || lacks 4 required access || lacks 8 required access

-- The end of an area.
unfoldable pub area_end : ℕ × Vmr → ℕ
area_end e = (e.0 + e.1.size) % 2 ^ 64

-- Whether an area does not begin where the last one ended.
unfoldable pub is_apart : Option (ℕ × Vmr) → ℕ × Vmr → Bool
unfolding area_end
is_apart none e = false
is_apart (some last) e = not (area_end last == e.0)

unfoldable pub logged : Event → Walked → Walked
logged event (passed e trace) = passed e (event ∷ trace)
logged event (stopped k trace) = stopped k (event ∷ trace)
logged event out_of_fuel = out_of_fuel

-- The checks that both calls begin with.
unfoldable pub refuses : ℕ → ℕ → Bool
unfolding pgfloor pgceil is_user_space differs last_byte
refuses ptr size =
    let p = pgfloor ptr in
    ltb (2 ^ 64 - 1 - p) (pgceil size)
    || differs (is_user_space p) (is_user_space (last_byte p (pgceil size)))

module _ (tree : List (ℕ × Vmr)) where
  -- `get_next(vmr, vmr_end)`.
  unfoldable pub next_area : ℕ → ℕ → Option (ℕ × Vmr)
  next_area vmr_end k = if k == vmr_end then none else next_above k tree

  -- `get_prev(vmr, initial_vmr)`.
  unfoldable pub prev_area : ℕ → ℕ → Option (ℕ × Vmr)
  prev_area initial k = if k == initial then none else find_max_lteq (k - 1) tree

  -- The walk of `mm_probe_and_lock_pages`.
  unfoldable pub probe_areas : ℕ → ℕ → ℕ → Option (ℕ × Vmr) → ℕ × Vmr → Walked
  unfolding logged is_apart denies next_area
  probe_areas zero required vmr_end last e = out_of_fuel
  probe_areas (suc n) required vmr_end last e =
      logged (locks e.0) (elim (is_apart last e || denies required e.1.access) [
        | true ↦ stopped e.0 []
        | false ↦ elim (next_area vmr_end e.0) [
          | none ↦ passed e []
          | some next ↦ probe_areas n required vmr_end (some e) next
        ]
      ])

  -- `restore_guard`, whose loop asks for the one before `vmr` each time; `none` out of fuel.
  unfoldable pub restore : ℕ → ℕ → ℕ → ℕ → Option (List Event)
  unfolding prev_area
  restore zero initial vmr i = none
  restore (suc n) initial vmr i = elim (prev_area initial vmr) [
    | none ↦ some (unlocks i ∷ [])
    | some prev ↦ elim (restore n initial vmr prev.0) [
      | none ↦ none
      | some trace ↦ some (unlocks i ∷ trace)
    ]
  ]

  -- The walk of `mm_unlock_pages`.
  unfoldable pub unlock_areas : ℕ → ℕ → Option (ℕ × Vmr) → ℕ × Vmr → Walked
  unfolding logged is_apart next_area
  unlock_areas zero vmr_end last e = out_of_fuel
  unlock_areas (suc n) vmr_end last e = elim (is_apart last e) [
    | true ↦ stopped e.0 []
    | false ↦ logged (unlocks e.0) (elim (next_area vmr_end e.0) [
      | none ↦ passed e []
      | some next ↦ unlock_areas n vmr_end (some e) next
    ])
  ]

  -- The part of `mm_probe_and_lock_pages` for user space; behind the last area `vmr` is null, so
  -- `restore_guard` unlocks nothing.
  unfoldable pub probe_user : ℕ → ℕ → ℕ → Probed
  unfolding probe_areas restore area_end
  probe_user ptr limit required = elim (find_max_lteq ptr tree) [
    | none ↦ ended km_result_invalid_args []
    | some initial ↦ elim (find_max_lteq limit tree) [
      | none ↦ panicked
      | some vmr_end ↦ elim (probe_areas (length tree) required vmr_end.0 none initial) [
        | out_of_fuel ↦ endless
        | stopped k trace ↦ elim (restore (suc (length tree)) initial.0 k k) [
          | none ↦ endless
          | some restored ↦ ended km_result_access_violation (trace ++ restored)
        ]
        | passed last trace ↦
            if ltb (area_end last) limit
            then ended km_result_access_violation trace
            else ended km_result_ok trace
      ]
    ]
  ]

  unfoldable pub unlock_user : ℕ → ℕ → Probed
  unfolding unlock_areas area_end
  unlock_user ptr limit = elim (find_max_lteq ptr tree) [
    | none ↦ ended km_result_invalid_args []
    | some initial ↦ elim (find_max_lteq limit tree) [
      | none ↦ panicked
      | some vmr_end ↦ elim (unlock_areas (length tree) vmr_end.0 none initial) [
        | out_of_fuel ↦ endless
        | stopped k trace ↦ panicked
        | passed last trace ↦
            if ltb (area_end last) limit then panicked else ended km_result_ok trace
      ]
    ]
  ]

  -- `uninitialized` is what `pg_access` holds, which no statement sets before its first use, and
  -- `getmap` what `mm_getmap` stores of the access to a page.
  module _ (uninitialized : ℕ) (getmap : ℕ → ℕ) where
    -- The loop over `n` pages of the kernel's space from `p` on.
    unfoldable pub probe_kernel : ℕ → ℕ → ℕ → Probed
    unfolding lacks denies
    probe_kernel zero p required = ended km_result_ok []
    probe_kernel (suc n) p required =
        let access = getmap p in
        elim (lacks 1 1 access || lacks 32 required access || denies required access) [
          | true ↦ ended km_result_access_violation []
          | false ↦ probe_kernel n ((p + 4096) % 2 ^ 64) required
        ]

    -- `mm_probe_and_lock_pages`.
    unfoldable pub probe_and_lock_pages : ℕ → ℕ → ℕ → Probed
    unfolding refuses probe_user probe_kernel
    probe_and_lock_pages ptr size required =
        let p = pgfloor ptr in
        if refuses ptr size
        then ended km_result_invalid_args []
        else if is_user_space p
        then probe_user ptr (last_byte p (pgceil size)) required
        else if wants_user uninitialized
        then ended km_result_access_violation []
        else probe_kernel (pgceil size / 4096) p required

    -- `mm_unlock_pages`.
    unfoldable pub unlock_pages : ℕ → ℕ → Probed
    unfolding refuses unlock_user
    unlock_pages ptr size =
        let p = pgfloor ptr in
        if refuses ptr size
        then ended km_result_invalid_args []
        else if is_user_space p
        then unlock_user ptr (last_byte p (pgceil size))
        else if wants_user uninitialized
        then ended km_result_access_violation []
        else ended km_result_ok []
