-- ===== src/Fs/Node.antt =====
-- kernel/fs/file.cc and include/pbos/fs/file.hh: file nodes, their reference counts and the children
-- of a directory. Nodes stand under their addresses, `none` is a null pointer; the hash map of a
-- directory is the list of what it holds.
pub mod Counts
pub mod Children
use pbos.Common.{
  ℕ, ◌+◌, ◌-◌, ◌%◌, ◌^◌, Bool, true, false, ◌&&◌, Option, none, some, List, [], ◌∷◌, ◌==◌,
  if◌then◌else◌,
}

abbrev pub km_result_not_found : ℕ
km_result_not_found = 6

abbrev pub km_result_existed : ℕ
km_result_existed = 11

abbrev pub km_result_unsupported_operation : ℕ
km_result_unsupported_operation = 15

abbrev pub km_result_dir_not_empty : ℕ
km_result_dir_not_empty = 18

pub data FileType : Type 0 where
  file dir link blkdev chardev pipe socket : FileType

-- `fs_fnode_t` and `fs_dir_t`, but for the reference count.
pub record FNode : Type 0 where
  pub parent : Option ℕ
  pub fs : ℕ
  pub file_type : FileType
  pub filename : Option (List ℕ)
  pub subnodes : List (List ℕ × ℕ)

abbrev pub Nodes : Type 0
Nodes = ℕ → Option FNode

-- The nodes, and the reference count of each.
pub record Store : Type 0 where
  pub nodes : ℕ → Option FNode
  pub counts : ℕ → ℕ

-- How a call ends: with success and the node it gives out, with an error code, or in a panic or at a
-- null pointer.
pub data Reply : Type 0 where
  done : Option ℕ → Store → Reply
  failed : ℕ → Store → Reply
  stopped : Reply

-- `fs_file_system_ops_t`, as far as it is called here.
pub record FileSystemOps : Type 0 where
  pub subnode : ℕ → List ℕ → Store → Reply
  pub premount : ℕ → ℕ → Store → ℕ × Store
  pub mount_fail : ℕ → ℕ → Store → Store
  pub unmount_cleanup : ℕ → Store → ℕ × Store
  pub open_file : ℕ → Store → Reply

unfoldable pub same_name : List ℕ → List ℕ → Bool
same_name [] [] = true
same_name [] (b ∷ m) = false
same_name (a ∷ l) [] = false
same_name (a ∷ l) (b ∷ m) = a == b && same_name l m

-- `subnodes.find`.
unfoldable pub find : List ℕ → List (List ℕ × ℕ) → Option ℕ
unfolding same_name
find name [] = none
find name ((key, a) ∷ rest) = if same_name key name then some a else find name rest

-- `fs_ref_fnode`.
unfoldable pub ref_fnode : ℕ → Store → Store
ref_fnode a s = record s { counts = λ i. if a == i then (s.counts i + 1) % 2 ^ 64 else s.counts i }

-- `ki_destroy_fnode`: no case of its switch breaks, so that each one ends in the panic of the last.
unfoldable pub destroy_fnode : ℕ → Store → Option Store
destroy_fnode a s = none

-- `fs_unref_fnode`.
unfoldable pub unref_fnode : ℕ → Store → Option Store
unfolding destroy_fnode
unref_fnode a s =
    let left = (s.counts a + (2 ^ 64 - 1)) % 2 ^ 64 in
    let t = record s { counts = λ i. if a == i then left else s.counts i } in
    if left == 0 then destroy_fnode a t else some t

-- `FNodePtr::reset`, whose pointer is null afterwards.
unfoldable pub reset : Option ℕ → Store → Option Store
unfolding unref_fnode
reset none s = some s
reset (some a) s = unref_fnode a s

-- The construction of an `FNodePtr` from a pointer.
unfoldable pub hold : Option ℕ → Store → Store
unfolding ref_fnode
hold none s = s
hold (some a) s = ref_fnode a s

-- `operator=` of an `FNodePtr` that held `old`, from another one, and from a pointer.
unfoldable pub assign : Option ℕ → Option ℕ → Store → Option Store
unfolding reset ref_fnode
assign old none s = none
assign old (some a) s = elim (reset old s) [ none ↦ none | some t ↦ some (ref_fnode a t) ]

unfoldable pub assign_pointer : Option ℕ → Option ℕ → Store → Option Store
unfolding reset hold
assign_pointer old a s = elim (reset old s) [ none ↦ none | some t ↦ some (hold a t) ]

-- What `fs_child_of` does with a child that it finds: `node` is held while the count that is given
-- out is taken.
unfoldable pub give_out : ℕ → Store → Reply
unfolding ref_fnode unref_fnode
give_out a s = elim (unref_fnode a (ref_fnode a (ref_fnode a s))) [
  | none ↦ stopped
  | some t ↦ done (some a) t
]

-- `fs_child_of`.
unfoldable pub child_of : (ℕ → FileSystemOps) → Option ℕ → List ℕ → Store → Reply
unfolding find give_out
child_of ops none name s = failed km_result_not_found s
child_of ops (some a) name s = elim (s.nodes a) [
  | none ↦ stopped
  | some n ↦ elim n.file_type [
    | dir ↦ elim (find name n.subnodes) [
      | some b ↦ give_out b s
      | none ↦ (ops n.fs).subnode a name s
    ]
    | _ ↦ failed km_result_unsupported_operation s
  ]
]
