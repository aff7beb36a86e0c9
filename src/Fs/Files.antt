-- ===== src/Fs/Files.antt =====
-- kernel/fs/file.cc: making, naming, linking, mounting and opening file nodes. Whether memory is
-- given out is an argument.
pub mod Linking
use pbos.Common.{
  ℕ, zero, suc, Bool, true, false, not, Option, none, some, List, [], ◌∷◌, length, ◌==◌,
  if◌then◌else◌,
}
use pbos.Mm.Context.{km_result_no_mem}
use pbos.Fs.Node.{
  FNode, Store, Reply, done, failed, stopped, FileSystemOps, FileType, km_result_existed,
  km_result_unsupported_operation, km_result_dir_not_empty, dir, file, find, same_name, ref_fnode,
  unref_fnode, reset,
}
use pbos.Fs.Path.{resolve_path}

unfoldable pub set_node : ℕ → FNode → Store → Store
set_node a n s = record s { nodes = λ i. if a == i then some n else s.nodes i }

-- `_fs_fnode_t`, `_fs_file_t` and `_fs_dir_t` made, and `fs_alloc_file_fnode` and
-- `fs_alloc_dir_fnode` at the address that the allocator gives, if any; `fs` is stored afterwards.
unfoldable pub new_fnode : FileType → ℕ → FNode
new_fnode type fs = record {
  parent = none;
  fs = fs;
  file_type = type;
  filename = none;
  subnodes = [];
}

unfoldable pub alloc_fnode : FileType → ℕ → Option ℕ → Store → Reply
unfolding new_fnode set_node ref_fnode
alloc_fnode type fs none s = failed km_result_no_mem s
alloc_fnode type fs (some a) s =
    let made = record s { counts = λ i. if a == i then 0 else s.counts i } in
    done (some a) (ref_fnode a (set_node a (new_fnode type fs) made))

-- The name as a string view.
unfoldable pub name_of : FNode → List ℕ
name_of n = elim n.filename [ none ↦ [] | some name ↦ name ]

-- `ki_do_rename_fnode`; `allocated` is whether the allocator gives memory.
unfoldable pub do_rename_fnode : Bool → ℕ → List ℕ → Store → Reply
unfolding set_node
do_rename_fnode allocated a [] s = stopped
do_rename_fnode false a (b ∷ name) s = failed km_result_no_mem s
do_rename_fnode true a (b ∷ name) s = elim (s.nodes a) [
  | none ↦ stopped
  | some n ↦ done none (set_node a (record n { filename = some (b ∷ name) }) s)
]

-- `fs_rename_fnode`.
unfoldable pub rename_fnode : Bool → ℕ → List ℕ → Store → Reply
unfolding do_rename_fnode
rename_fnode allocated a name s = elim (s.nodes a) [
  | none ↦ stopped
  | some n ↦ elim n.parent [ none ↦ do_rename_fnode allocated a name s | some p ↦ stopped ]
]

-- `fs_unname_fnode`.
unfoldable pub unname_fnode : ℕ → Store → Option Store
unfolding set_node
unname_fnode a s = elim (s.nodes a) [
  | none ↦ none
  | some n ↦ some (set_node a (record n { filename = none }) s)
]

-- `subnodes.insert` where the key is new, and `subnodes.remove`.
unfoldable pub erase : List ℕ → List (List ℕ × ℕ) → List (List ℕ × ℕ)
unfolding same_name
erase name [] = []
erase name ((key, a) ∷ rest) = if same_name key name then rest else (key, a) ∷ erase name rest

-- A pointer that was made for an insertion which failed.
unfoldable pub take_back : ℕ → ℕ → Store → Reply
unfolding ref_fnode unref_fnode
take_back code a s = elim (unref_fnode a (ref_fnode a s)) [
  | none ↦ stopped
  | some t ↦ failed code t
]

-- `fs_link_subnode`; `inserted` is whether the hash map finds memory.
unfoldable pub link_subnode : Bool → ℕ → ℕ → Store → Reply
unfolding name_of find set_node ref_fnode take_back
link_subnode inserted parent a s = elim (s.nodes parent) [
  | none ↦ stopped
  | some p ↦ elim p.file_type [
    | dir ↦ elim (s.nodes a) [
      | none ↦ stopped
      | some n ↦ elim (find (name_of n) p.subnodes) [
        | some b ↦ failed km_result_existed s
        | none ↦ elim inserted [
          | true ↦ done none (
              set_node parent (record p { subnodes = (name_of n, a) ∷ p.subnodes }) (ref_fnode a s))
          | false ↦ take_back km_result_no_mem a s
        ]
      ]
    ]
    | _ ↦ failed km_result_unsupported_operation s
  ]
]

-- `insert` of `fs_mount_file`, with what its guard does where it fails.
unfoldable pub mount_into : Bool → FileSystemOps → ℕ → ℕ → Store → Reply
unfolding name_of set_node ref_fnode take_back
mount_into inserted ops parent a s = elim (s.nodes a) [
  | none ↦ stopped
  | some f ↦ elim inserted [
    | true ↦
        done none (set_node a (record f { subnodes = (name_of f, a) ∷ f.subnodes }) (ref_fnode a s))
    | false ↦ elim (take_back km_result_no_mem a s) [
      | failed code t ↦ failed code (ops.mount_fail parent a t)
      | done o t ↦ done o t
      | stopped ↦ stopped
    ]
  ]
]

-- `fs_mount_file`; `shrunk` is whether `shrink_buckets` finds memory.
unfoldable pub mount_file : (ℕ → FileSystemOps) → Bool → Bool → ℕ → ℕ → Store → Reply
unfolding mount_into
mount_file ops shrunk inserted parent a s = elim (s.nodes a) [
  | none ↦ stopped
  | some f ↦ elim f.file_type [
    | dir ↦ elim f.subnodes [
      | x ∷ rest ↦ failed km_result_dir_not_empty s
      | [] ↦ elim shrunk [
        | false ↦ failed km_result_no_mem s
        | true ↦ elim (s.nodes parent) [
          | none ↦ stopped
          | some p ↦
              let r = (ops p.fs).premount parent a s in
              if r.0 == 0 then mount_into inserted (ops p.fs) parent a r.1 else failed r.0 r.1
        ]
      ]
    ]
    | _ ↦ failed km_result_unsupported_operation s
  ]
]

-- What `fs_unmount_file` does once the file system has agreed.
unfoldable pub unlink_from : ℕ → ℕ → Store → Reply
unfolding name_of erase find set_node unref_fnode
unlink_from parent a s = elim (s.nodes a) [
  | none ↦ stopped
  | some f ↦ elim (s.nodes parent) [
    | none ↦ stopped
    | some p ↦
        let t = set_node parent (record p { subnodes = erase (name_of f) p.subnodes }) s in
        elim (find (name_of f) p.subnodes) [
          | none ↦ done none t
          | some b ↦ elim (unref_fnode b t) [ none ↦ stopped | some u ↦ done none u ]
        ]
  ]
]

-- `fs_unmount_file`.
unfoldable pub unmount_file : (ℕ → FileSystemOps) → ℕ → Store → Reply
unfolding unlink_from
unmount_file ops a s = elim (s.nodes a) [
  | none ↦ stopped
  | some f ↦ elim f.parent [
    | none ↦ stopped
    | some parent ↦ elim (s.nodes parent) [
      | none ↦ stopped
      | some p ↦
          let r = (ops p.fs).unmount_cleanup a s in
          if r.0 == 0 then unlink_from parent a r.1 else failed r.0 r.1
    ]
  ]
]

-- The end of `fs_open`, where `file` is destroyed.
unfoldable pub close_path : ℕ → Reply → Reply
unfolding reset
close_path a (done fcb s) = elim (reset (some a) s) [ none ↦ stopped | some t ↦ done fcb t ]
close_path a (failed code s) = elim (reset (some a) s) [ none ↦ stopped | some t ↦ failed code t ]
close_path a stopped = stopped

-- `fs_open`.
unfoldable pub open_path : (ℕ → FileSystemOps) → Option ℕ → Option ℕ → List ℕ → Store → Reply
unfolding resolve_path close_path
open_path ops root base_dir path s = elim (resolve_path ops root base_dir path s) [
  | failed code t ↦ failed code t
  | stopped ↦ stopped
  | done none t ↦ stopped
  | done (some a) t ↦ elim (t.nodes a) [
    | none ↦ stopped
    | some n ↦ close_path a ((ops n.fs).open_file a t)
  ]
]
