-- ===== src/Fs/Rootfs.antt =====
-- kernel/fs/rootfs.cc and hal/x86_64/initcar/fileio.cc: the file systems that hold no child outside
-- the directory nodes, as users of the interface of `fs_child_of`.
use pbos.Common.{
  ℕ, ◌≡◌, ◌≢◌, refl, sym, ◌∙◌, ap, subst, ◌⊎◌, inl, inr, none, some, List, [], ◌∷◌, All, Bool-cases,
  Option-cases, arith,
}
use pbos.Fs.Node.{
  FNode, Nodes, Store, Reply, failed, stopped, FileSystemOps, FileType, dir, km_result_not_found,
  find, same_name,
}
use pbos.Fs.Node.Children.{LooksUp, IsClosed, child_in, child_under}

-- `ki_rootfs_subnode`, which is `kh_initcar_subnode` too.
unfoldable pub rootfs_subnode : ℕ → List ℕ → Store → Reply
rootfs_subnode parent name s = failed km_result_not_found s

unfoldable pub rootfs_premount : ℕ → ℕ → Store → ℕ × Store
rootfs_premount parent a s = (0, s)

unfoldable pub rootfs_mountfail : ℕ → ℕ → Store → Store
rootfs_mountfail parent a s = s

unfoldable pub rootfs_unmount_cleanup : ℕ → Store → ℕ × Store
rootfs_unmount_cleanup a s = (0, s)

-- `ki_rootfs_open`: it reads the result of `fs_create_fcb`, whose body is empty.
unfoldable pub rootfs_open : ℕ → Store → Reply
rootfs_open a s = stopped

-- `ki_rootfs_ops`.
abbrev pub rootfs_ops : FileSystemOps
rootfs_ops = record {
  subnode = rootfs_subnode;
  premount = rootfs_premount;
  mount_fail = rootfs_mountfail;
  unmount_cleanup = rootfs_unmount_cleanup;
  open_file = rootfs_open;
}

abbrev pub nowhere : ℕ → Nodes → ℕ → List ℕ → ℕ ⊎ ℕ
nowhere f ns a name = inl km_result_not_found

pub rootfs-LooksUp : LooksUp (λ f. rootfs_ops) nowhere
unfolding rootfs_subnode
rootfs-LooksUp f a name s = refl

-- The children that the directories hold are nodes.
abbrev pub HoldsNodes : Nodes → List (List ℕ × ℕ) → Type 0
HoldsNodes ns subnodes = All (λ (e : List ℕ × ℕ). ns e.1 ≢ none) subnodes

found-IsNode :
    (ns : Nodes) (name : List ℕ) (subnodes : List (List ℕ × ℕ)) (b : ℕ)
    → HoldsNodes ns subnodes
    → find name subnodes ≡ some b
    → ns b ≢ none
unfolding find
found-IsNode ns name [] b h e = absurd (grind (arith, e))
found-IsNode ns name ((key, a) ∷ rest) b h e = elim (Bool-cases (same_name key name)) [
  | inl f ↦ let g : (a ≡ b) = ground (arith, e, f) in subst (λ x. ns x ≢ none) g h.0
  | inr f ↦ found-IsNode ns name rest b h.1 (ground (arith, e, f))
]

child_in-IsNode :
    (ns : Nodes) (a : ℕ) (t : FileType) (fs : ℕ) (subnodes : List (List ℕ × ℕ)) (name : List ℕ)
    (b : ℕ)
    → HoldsNodes ns subnodes
    → child_in nowhere ns a t fs subnodes name ≡ inr b
    → ns b ≢ none
child_in-IsNode ns a dir fs subnodes name b h e =
    found-IsNode ns name subnodes b h (ground (arith, e))
child_in-IsNode ns a _ fs subnodes name b h e = absurd (grind (arith, e))

-- Then what a node leads to is a node.
pub nowhere-IsClosed :
    (ns : Nodes)
    → ((a : ℕ) (n : FNode) → ns a ≡ some n → HoldsNodes ns n.subnodes)
    → IsClosed nowhere ns
nowhere-IsClosed ns h a name b e = elim (Option-cases (ns a)) [
  | inl f ↦ absurd (grind (arith, e, f))
  | inr (n, f) ↦
      child_in-IsNode ns a n.file_type n.fs n.subnodes name b (h a n f)
        (sym (ap (λ m. child_under nowhere ns a m name) f) ∙ e)
]
