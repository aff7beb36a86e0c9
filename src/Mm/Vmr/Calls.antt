-- ===== src/Mm/Vmr/Calls.antt =====
-- Sequences of the calls of kernel/mm/misc.cc that divide, join and change areas.
use pbos.Common.{ℕ, ◌≡◌, ◌≢◌, refl, sym, subst, ◌∙◌, Bool, true, All, List, [], ◌∷◌}
use pbos.Mm.Context.{Context, Paging, Outcome, returned, panicked, km_result_ok}
use pbos.Mm.Vmr.{Answer, stopped, set_page_access, merge_mapped_area, split_mapped_area}
use pbos.Mm.Vmr.Areas.{IsDisjoint}
use pbos.Mm.Vmr.Splitting.{Keeps, split-Keeps, merge-Keeps, set_page_access-Keeps}

pub data Call : Type 0 where
  splits : Answer → ℕ → ℕ → Call
  merges : Bool → ℕ → ℕ → Call
  sets_access : ℕ → ℕ → ℕ → Call

-- What the call asks of the pool of VMRs returns: `kima_alloc`, with memory or with null, and
-- `destroy_at` with `kima_free`.
abbrev pub Returns : Call → Type 0
Returns (splits answer area_vaddr split_point) = answer ≢ stopped
Returns (merges released area_vaddr next_vaddr) = released ≡ true
Returns (sets_access vaddr size access) = Unit

module _ {P : Type 0} (paging : Paging P) where
  abbrev pub call : Call → Context P → Outcome P
  call (splits answer area_vaddr split_point) c = split_mapped_area answer c area_vaddr split_point
  call (merges released area_vaddr next_vaddr) c =
      merge_mapped_area released c area_vaddr next_vaddr
  call (sets_access vaddr size access) c = set_page_access paging c vaddr size access

  -- The calls one after the other, whatever codes they return.
  abbrev pub calls : List Call → Context P → Outcome P
  calls [] c = returned km_result_ok c
  calls (x ∷ xs) c = elim (call x c) [ panicked ↦ panicked | returned code d ↦ calls xs d ]

  call-Keeps : (x : Call) (c : Context P) → IsDisjoint c.vmr_tree → Returns x → Keeps c (call x c)
  call-Keeps (splits answer a s) c d r = split-Keeps answer c a s d r
  call-Keeps (merges released a b) c d r =
      subst (λ k. Keeps c (merge_mapped_area k c a b)) (sym r) (merge-Keeps c a b d)
  call-Keeps (sets_access vaddr size access) c d r =
      set_page_access-Keeps paging c vaddr size access d

  Keeps-trans :
      (c d : Context P) (o : Outcome P)
      → d.vmr_locks ≡ c.vmr_locks
      → d.kernel_locks ≡ c.kernel_locks
      → Keeps d o
      → Keeps c o
  Keeps-trans c d panicked e f k = k
  Keeps-trans c d (returned code m) e f k = (k.0, k.1 ∙ e, k.2 ∙ f)

  and_calls :
      (xs : List Call) (c : Context P) (o : Outcome P)
      → Keeps c o
      → ((e : Context P) → IsDisjoint e.vmr_tree → Keeps e (calls xs e))
      → Keeps c (elim o [ panicked ↦ panicked | returned code e ↦ calls xs e ])
  and_calls xs c panicked k h = k
  and_calls xs c (returned code e) k h = Keeps-trans c e (calls xs e) k.1 k.2 (h e k.0)

  -- From VMRs that do not overlap, where each `kima_alloc` of the sequence returns, with memory or
  -- with null, and each `destroy_at` and `kima_free` does: a sequence of calls of
  -- `mm_split_mapped_area`, `mm_merge_mapped_area` and `mm_set_page_access` does not panic, and ends
  -- with VMRs that do not overlap and both mutexes held as before.
  pub calls-Keeps :
      (xs : List Call) (c : Context P)
      → IsDisjoint c.vmr_tree
      → All Returns xs
      → Keeps c (calls xs c)
  calls-Keeps [] c d r = (d, refl, refl)
  calls-Keeps (x ∷ xs) c d r =
      and_calls xs c (call x c) (call-Keeps x c d r.0) (λ e k. calls-Keeps xs e k r.1)
