-- ===== src/Fs/Path.antt =====
-- kernel/fs/file.cc: `fs_resolve_path`. A path is the list of its bytes; `i` and `last_divider` are
-- counted from its start.
pub mod Components
pub mod Entering
pub mod Scanning
pub mod Resolution
use pbos.Common.{
  ℕ, zero, suc, ◌+◌, ◌-◌, true, false, Option, none, some, List, [], ◌∷◌, length, get_elem?, take,
  drop, ◌==◌, if◌then◌else◌,
}
use pbos.Fs.Node.{
  Store, Reply, done, failed, stopped, FileSystemOps, km_result_not_found, reset, hold, assign,
  assign_pointer, child_of,
}

abbrev pub slash : ℕ
slash = 47

-- Where the loop over the path is left: at a place, with `file` and `new_file`; by a `return`; or in
-- a panic or at a null pointer.
pub data Scanned : Type 0 where
  ended : (i last_divider : ℕ) → (file new_file : Option ℕ) → Store → Scanned
  returned : ℕ → Store → Scanned
  crashed : Scanned

-- What one component leads to.
pub data Entered : Type 0 where
  entered : (new_file : Option ℕ) → Store → Entered
  refused : ℕ → Store → Entered
  broken : Entered

-- The bytes from `last_divider` on.
unfoldable pub component : List ℕ → ℕ → ℕ → List ℕ
component path last_divider i = take (i - last_divider) (drop last_divider path)

-- An early `return`: `new_file` and `file` are destroyed.
unfoldable pub leave : ℕ → Option ℕ → Option ℕ → Store → Entered
unfolding reset
leave code file new_file s = elim (reset new_file s) [
  | none ↦ broken
  | some t ↦ elim (reset file t) [ none ↦ broken | some u ↦ refused code u ]
]

-- Behind `end`: `new_file` is given out, and `file` is destroyed.
unfoldable pub give : Option ℕ → Option ℕ → Store → Reply
unfolding reset
give file new_file s = elim (reset file s) [ none ↦ stopped | some t ↦ done new_file t ]

module _ (ops : ℕ → FileSystemOps) where
  -- The call of `fs_child_of` for a component, with `new_file.get_addr()` before it.
  unfoldable pub enter : List ℕ → Option ℕ → Option ℕ → Store → Entered
  unfolding leave child_of reset
  enter name none new_file s = leave km_result_not_found none new_file s
  enter name (some a) new_file s = elim (reset new_file s) [
    | none ↦ broken
    | some t ↦ elim (child_of ops (some a) name t) [
      | done b u ↦ entered b u
      | failed code u ↦ leave code (some a) none u
      | stopped ↦ broken
    ]
  ]

  -- What `case '/'` does before the divider is passed.
  unfoldable pub at_divider : Option ℕ → List ℕ → ℕ → ℕ → Option ℕ → Option ℕ → Store → Entered
  unfolding enter assign_pointer component
  at_divider root path i last_divider file new_file s =
      if i - last_divider == 0
      then if last_divider == 0
        then elim (assign_pointer new_file root s) [ none ↦ broken | some t ↦ entered root t ]
        else entered new_file s
      else enter (component path last_divider i) file new_file s

  -- The loop, with `k` bytes left.
  unfoldable pub scan : Option ℕ → List ℕ → ℕ → ℕ → ℕ → Option ℕ → Option ℕ → Store → Scanned
  unfolding at_divider assign
  scan root path zero i last_divider file new_file s = ended i last_divider file new_file s
  scan root path (suc k) i last_divider file new_file s = elim (get_elem? path i) [
    | none ↦ crashed
    | some b ↦ elim (b == slash) [
      | true ↦ elim (at_divider root path i last_divider file new_file s) [
        | entered found t ↦ elim (assign file found t) [
          | none ↦ crashed
          | some u ↦ scan root path k (i + 1) (i + 1) found found u
        ]
        | refused code t ↦ returned code t
        | broken ↦ crashed
      ]
      | false ↦ elim (b == 0) [
        | true ↦ ended i last_divider file new_file s
        | false ↦ scan root path k (i + 1) last_divider file new_file s
      ]
    ]
  ]

  unfoldable pub finish : List ℕ → Scanned → Reply
  unfolding enter give component
  finish path (ended i last_divider file new_file s) =
      if i - last_divider == 0
      then give file new_file s
      else elim (enter (component path last_divider i) file new_file s) [
        | entered found t ↦ give file found t
        | refused code t ↦ failed code t
        | broken ↦ stopped
      ]
  finish path (returned code s) = failed code s
  finish path crashed = stopped

  -- `fs_resolve_path`; `root` is `fs_abs_root_dir`.
  unfoldable pub resolve_path : Option ℕ → Option ℕ → List ℕ → Store → Reply
  unfolding finish scan hold
  resolve_path root cur_dir path s =
      finish path (scan root path (length path) 0 0 cur_dir none (hold cur_dir s))
