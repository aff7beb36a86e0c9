-- ===== src/Fs/Files/Linking.antt =====
-- What linking, mounting and opening do to the nodes.
use pbos.Common.{
  ℕ, ◌+◌, ◌^◌, ◌<◌, ◌≡◌, ◌≢◌, refl, subst, ◌⊎◌, inr, true, false, Option, none, some, List, [], ◌∷◌,
  arith,
}
use pbos.Fs.Node.{
  FNode, Nodes, Store, done, stopped, FileSystemOps, dir, find, same_name, ref_fnode,
}
use pbos.Fs.Node.Counts.{Counts, IsNode, IsShared}
use pbos.Fs.Node.Children.{LooksUp, IsClosed}
use pbos.Fs.Path.{resolve_path}
use pbos.Fs.Path.Components.{components, is_absolute, resolved, Ends}
use pbos.Fs.Path.Resolution.{resolve_path-Ends}
use pbos.Fs.Files.{set_node, name_of, link_subnode, mount_into, mount_file, unmount_file, open_path}

same_name_refl : (name : List ℕ) → same_name name name ≡ true
unfolding same_name
same_name_refl [] = refl
same_name_refl (b ∷ name) = ground (arith, same_name_refl name)

-- The parent with one more child.
abbrev linked : ℕ → ℕ → FNode → FNode → Store → Store
linked parent a p n s =
    set_node parent (record p { subnodes = (name_of n, a) ∷ p.subnodes }) (ref_fnode a s)

-- Of a directory that holds no node of the name, and a node whose count has room for one more
-- reference: `fs_link_subnode` succeeds where the hash map finds memory; then the directory leads by
-- the name to the node, by every other name where it led before, and the node has one more
-- reference.
pub link_subnode-find :
    (parent a : ℕ) (p n : FNode) (other : List ℕ) (s : Store)
    → s.nodes parent ≡ some p
    → p.file_type ≡ dir
    → s.nodes a ≡ some n
    → find (name_of n) p.subnodes ≡ none
    → same_name (name_of n) other ≡ false
    → s.counts a + 1 < 2 ^ 64
    → (t : Store) × ((q : FNode) × ((link_subnode true parent a s ≡ done none t)
          × (t.nodes parent ≡ some q)
          × (find (name_of n) q.subnodes ≡ some a)
          × (find other q.subnodes ≡ find other p.subnodes)
          × (t.counts a ≡ s.counts a + 1)))
unfolding link_subnode find ref_fnode set_node
link_subnode-find parent a p n other s e d f u o fits = (
  linked parent a p n s,
  (
    record p { subnodes = (name_of n, a) ∷ p.subnodes },
    (
      ground (arith, e, d, f, u),
      ground arith,
      ground (arith, same_name_refl (name_of n)),
      ground (arith, o),
      ground (arith, fits),
    ),
  ),
)

-- Under the same conditions, of a node that stands under no parent yet and is not the directory
-- itself: `fs_unmount_file` of the linked node then stops at a null pointer, since `fs_link_subnode`
-- does not store the parent.
pub unmount_file-link_subnode :
    (ops : ℕ → FileSystemOps) (parent a : ℕ) (p n : FNode) (s : Store)
    → s.nodes parent ≡ some p
    → p.file_type ≡ dir
    → s.nodes a ≡ some n
    → find (name_of n) p.subnodes ≡ none
    → n.parent ≡ none
    → parent ≢ a
    → (t : Store) × ((link_subnode true parent a s ≡ done none t)
        × (unmount_file ops a t ≡ stopped))
unfolding link_subnode unmount_file ref_fnode set_node
unmount_file-link_subnode ops parent a p n s e d f u o x =
    (linked parent a p n s, (ground (arith, e, d, f, u), ground (arith, f, o, x)))

-- Of an empty directory as the file and another node as the parent, where the file system agrees
-- and changes nothing: `fs_mount_file` succeeds and leaves the parent as it was; the file is then a
-- child of itself, by its own name.
pub mount_file-find :
    (ops : ℕ → FileSystemOps) (parent a : ℕ) (p n : FNode) (s : Store)
    → s.nodes parent ≡ some p
    → s.nodes a ≡ some n
    → n.file_type ≡ dir
    → n.subnodes ≡ []
    → (ops p.fs).premount parent a s ≡ (0, s)
    → parent ≢ a
    → (t : Store) × ((m : FNode) × ((mount_file ops true true parent a s ≡ done none t)
          × (t.nodes parent ≡ some p)
          × (t.nodes a ≡ some m)
          × (find (name_of n) m.subnodes ≡ some a)))
unfolding mount_file mount_into find ref_fnode set_node
mount_file-find ops parent a p n s e f d u g x =
    let m : FNode = record n { subnodes = (name_of n, a) ∷ n.subnodes } in
    (
      set_node a m (ref_fnode a s),
      (
        m,
        (
          ground (arith, e, f, d, u, g),
          ground (arith, e, x),
          ground arith,
          ground (arith, same_name_refl (name_of n)),
        ),
      ),
    )

-- A relative path without components, as the empty one, leads to the null pointer: where the file
-- systems look children up and take one reference to what they find, every node has another holder
-- and room for three references more, and what a node leads to is a node, `fs_open` of it stops at
-- that pointer.
pub open_path-stopped :
    (ops : ℕ → FileSystemOps) (lookup : ℕ → Nodes → ℕ → List ℕ → ℕ ⊎ ℕ) (ns : Nodes) (base : ℕ → ℕ)
    (r : ℕ) (cur_dir : Option ℕ) (path : List ℕ) (s : Store)
    → LooksUp ops lookup
    → IsShared ns base
    → IsClosed lookup ns
    → ns r ≢ none
    → IsNode ns cur_dir
    → Counts ns base s
    → is_absolute path ≡ false
    → components [] path ≡ []
    → open_path ops (some r) cur_dir path s ≡ stopped
unfolding open_path
open_path-stopped ops lookup ns base r cur_dir path s looks shared closed n m c a e =
    let f : (resolved lookup ns r cur_dir path ≡ inr none) = ground (arith, a, e) in
    let g =
      subst (λ v. Ends ns base v (resolve_path ops (some r) cur_dir path s)) f
        (resolve_path-Ends ops lookup looks ns base shared closed r cur_dir path s n m c) in
    ground (arith, g.1.0)
