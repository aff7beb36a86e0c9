-- ===== src/Fs/Tests.antt =====
-- Runs on a root directory with one directory, which holds one file.
use pbos.Common.{
  ℕ, ◌+◌, ◌≡◌, refl, subst, inl, inr, true, none, some, List, [], ◌∷◌, ◌==◌, if◌then◌else◌,
  Bool-cases, arith,
}
use pbos.Fs.Node.{FNode, Nodes, Store, done, stopped, dir, file, find, same_name}
use pbos.Fs.Node.Counts.{Counts, IsShared}
use pbos.Fs.Node.Children.{IsClosed}
use pbos.Fs.Path.{resolve_path}
use pbos.Fs.Path.Components.{components, resolved, Ends}
use pbos.Fs.Path.Resolution.{resolve_path-Ends}
use pbos.Fs.Files.{new_fnode, name_of, link_subnode, open_path}
use pbos.Fs.Files.Linking.{link_subnode-find, open_path-stopped}
use pbos.Fs.Rootfs.{rootfs_ops, nowhere, rootfs-LooksUp, HoldsNodes, nowhere-IsClosed}

-- `b` and `t`.
abbrev root_dir : FNode
root_dir = record (new_fnode dir 0) { subnodes = (98 ∷ [], 2) ∷ [] }

abbrev bin_dir : FNode
bin_dir = record (new_fnode dir 0) { filename = some (98 ∷ []); subnodes = (116 ∷ [], 3) ∷ [] }

abbrev tool : FNode
tool = record (new_fnode file 0) { filename = some (116 ∷ []) }

-- A directory that hangs nowhere yet.
abbrev loose_dir : FNode
loose_dir = record (new_fnode dir 0) { filename = some (99 ∷ []) }

abbrev tree : Nodes
tree i =
    if i == 1
    then some root_dir
    else if i == 2
    then some bin_dir
    else if i == 3
    then some tool
    else if i == 4
    then some loose_dir
    else none

abbrev start : Store
start = record { nodes = tree; counts = λ i. 1 }

tree-HoldsNodes : (a : ℕ) (n : FNode) → tree a ≡ some n → HoldsNodes tree n.subnodes
unfolding new_fnode
tree-HoldsNodes a n e = elim (Bool-cases (a == 1)) [
  | inl f ↦
      let g : (root_dir ≡ n) = ground (arith, e, f) in
      subst (λ (m : FNode). HoldsNodes tree m.subnodes) g ((λ z. absurd (grind (arith, z))), tt)
  | inr f ↦ elim (Bool-cases (a == 2)) [
    | inl g ↦
        let h : (bin_dir ≡ n) = ground (arith, e, f, g) in
        subst (λ (m : FNode). HoldsNodes tree m.subnodes) h ((λ z. absurd (grind (arith, z))), tt)
    | inr g ↦ elim (Bool-cases (a == 3)) [
      | inl h ↦
          let k : (tool ≡ n) = ground (arith, e, f, g, h) in
          subst (λ (m : FNode). HoldsNodes tree m.subnodes) k tt
      | inr h ↦ elim (Bool-cases (a == 4)) [
        | inl k ↦
            let l : (loose_dir ≡ n) = ground (arith, e, f, g, h, k) in
            subst (λ (m : FNode). HoldsNodes tree m.subnodes) l tt
        | inr k ↦ absurd (grind (arith, e, f, g, h, k))
      ]
    ]
  ]
]

tree-IsClosed : IsClosed nowhere tree
tree-IsClosed = nowhere-IsClosed tree tree-HoldsNodes

tree-IsShared : IsShared tree (λ i. 1)
tree-IsShared = λ a n. (omega arith, omega arith)

start-Counts : Counts tree (λ i. 1) start
start-Counts = (refl, λ i. refl)

-- `/b//t`.
abbrev path_of_tool : List ℕ
path_of_tool = 47 ∷ 98 ∷ 47 ∷ 47 ∷ 116 ∷ []

tool_found : resolved nowhere tree 1 none path_of_tool ≡ inr (some 3)
unfolding components new_fnode find same_name
tool_found = refl

resolve_path-Ends_example :
    Ends tree
      (λ i. 1)
      (resolved nowhere tree 1 none path_of_tool)
      (resolve_path (λ f. rootfs_ops) (some 1) none path_of_tool start)
resolve_path-Ends_example =
    resolve_path-Ends (λ f. rootfs_ops) nowhere rootfs-LooksUp tree (λ i. 1) tree-IsShared
      tree-IsClosed 1 none path_of_tool start (λ z. absurd (grind (arith, z))) tt start-Counts

open_path-stopped_example : open_path (λ f. rootfs_ops) (some 1) (some 2) [] start ≡ stopped
unfolding components
open_path-stopped_example =
    open_path-stopped (λ f. rootfs_ops) nowhere tree (λ i. 1) 1 (some 2) [] start rootfs-LooksUp
      tree-IsShared tree-IsClosed (λ z. absurd (grind (arith, z))) (λ z. absurd (grind (arith, z)))
      start-Counts refl refl

link_subnode-find_example :
    (t : Store) × ((q : FNode) × ((link_subnode true 1 4 start ≡ done none t)
        × (t.nodes 1 ≡ some q)
        × (find (name_of loose_dir) q.subnodes ≡ some 4)
        × (find (98 ∷ []) q.subnodes ≡ find (98 ∷ []) root_dir.subnodes)
        × (t.counts 4 ≡ 1 + 1)))
unfolding find same_name name_of new_fnode
link_subnode-find_example =
    link_subnode-find 1 4 root_dir loose_dir (98 ∷ []) start refl refl refl refl refl (omega arith)
