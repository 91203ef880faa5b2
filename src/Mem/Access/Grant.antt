-- ===== src/Mem/Access/Grant.antt =====
-- `vm_mem_alloc` as a whole: it ends in one of two ways, and in the first when the host is willing.
use masters_proj.Prelude.{
  ℕ, ◌+◌, ◌*◌, ◌%◌, ◌/◌, ◌^◌, ◌≤◌, ◌<◌, ◌≡◌, ◌≢◌, refl, ◌⊎◌, inl, inr, List, arith, sym, ◌∙◌, subst,
  ap, some, none, ne→==-false,
}
use native.Mathlib.Decide.{ℕ_discrete}
use masters_proj.Mem.State.{
  Region, HostCall, Mem, Host, Status, success, failure, call_valloc, frees, logged,
}
use masters_proj.Mem.Gpa.{
  locate, gpa_to_hva, size_of, map_gpa, vm_mem_alloc, alloc_at, use_block, Block,
  find_free_mem_region, keep_block,
}
use masters_proj.Mem.Gpa.Layout.{Layout, IsValid}
use masters_proj.Mem.Gpa.Free.{IsFree, find_free_mem_region-lowest}
use masters_proj.Mem.Gpa.Map.{
  map_gpa_iff, map_gpa-effect, Extends, SameMemory, Withdrawn, new_region,
}
use masters_proj.Mem.Access.View.{view, Mapped}
use masters_proj.Mem.Access.Alloc.{
  Below, Below-IsFree, Honest, Willing, NewBlock, Unchanged, Allocation, granted, denied, got_old,
  res-NewBlock, view-bytes,
}

Status-cases : (s : Status) → (s ≡ success) ⊎ (s ≡ failure)
Status-cases success = inl refl
Status-cases failure = inr refl

view-null : (m : Mem) (a : ℕ) → gpa_to_hva m a ≡ 0 → view m a ≡ none
unfolding view
view-null m a e = rw e refl

pub same-hva : (m m' : Mem) (a : ℕ) → m'.regions ≡ m.regions → gpa_to_hva m' a ≡ gpa_to_hva m a
unfolding gpa_to_hva
same-hva m m' a r = ap (locate a) r

-- Memory looks the same to the guest where the regions are the same and their bytes too.
pub same-view :
    (m m' : Mem)
    → m'.regions ≡ m.regions
    → ((a : ℕ) → Mapped m a → m'.bytes (gpa_to_hva m a) ≡ m.bytes (gpa_to_hva m a))
    → (a : ℕ) → view m' a ≡ view m a
same-view m m' r same a = elim (ℕ_discrete (gpa_to_hva m a) 0) [
  | yes null ↦ view-null m' a (same-hva m m' a r ∙ null) ∙ sym (view-null m a null)
  | no h ↦ view-bytes m m' a (same-hva m m' a r) (same a h)
]

Unchanged-logged : {m m' : Mem} (c : HostCall) → Unchanged m m' → Unchanged m (logged c m')
unfolding view gpa_to_hva
Unchanged-logged c u = record {
  regions = u.regions;
  pml4 = u.pml4;
  pml4_gpa = u.pml4_gpa;
  views = u.views;
}

keep_block-failed :
    {npages : ℕ} {m : Mem} (b : Block) (r : Status × Mem)
    → r.0 ≡ failure
    → Unchanged m r.1
    → Allocation npages m (keep_block b r)
keep_block-failed b (success, m') e u = cc
keep_block-failed b (failure, m') e u = denied (Unchanged-logged (frees b.hva) u)

keep_block-success : (b : Block) (r : Status × Mem) → r.0 ≡ success → keep_block b r ≡ (some b, r.1)
keep_block-success b (success, m) e = refl
keep_block-success b (failure, m) e = cc

keep_block-done :
    {npages : ℕ} {m : Mem} (b : Block) (r : Status × Mem)
    → r.0 ≡ success
    → NewBlock npages m b r.1
    → Allocation npages m (keep_block b r)
keep_block-done b (success, m') e n = granted n
keep_block-done b (failure, m') e n = cc

module _ (host : Host) (npages gpa hva : ℕ) (m : Mem) where
  use_block-null : hva ≡ 0 → use_block host npages gpa hva m ≡ (none, logged (frees 0) m)
  unfolding use_block
  use_block-null e = rw e refl

  use_block-found :
      hva ≢ 0
      → use_block host npages gpa hva m
        ≡ keep_block (record { hva = hva; gpa = gpa }) (map_gpa host gpa npages hva m)
  unfolding use_block
  use_block-found h = rw (ne→==-false hva 0 h) refl

valloc_null :
    (host : Host) (size : ℕ) (m : Mem)
    → (call_valloc host size m).0 ≡ 0
    → (call_valloc host size m).1.bytes ≡ m.bytes
valloc_null host size m e = ground (arith)

-- A free block is found no later than the end of the last region.
pub find_free_mem_region-le :
    (npages top g : ℕ) (rs : List Region)
    → npages * 4096 < 2 ^ 64
    → Layout 0 rs
    → Below top rs
    → find_free_mem_region npages rs ≡ some g
    → g ≤ top
find_free_mem_region-le npages top g rs size l b h =
    elim (find_free_mem_region-lowest npages rs size l) [
      | inl (_, e) ↦ cc
      | inr (g', _, e, _, _, low) ↦
          let same : some g ≡ some g' = sym h ∙ e in
          let bound = low top (Below-IsFree top npages rs b) in ground arith
    ]

-- A free block at the end of the address space could wrap around: it is excluded by a bound on
-- the regions' ends.
module _ (host : Host) (honest : Honest host) (m : Mem) (v : IsValid m.regions) (npages : ℕ)
    (size : npages * 4096 < 2 ^ 64) where
  module _ (g : ℕ) (pages : 0 < npages) (al : g % 4096 ≡ 0) (free : IsFree g npages m.regions)
      (bound : g + npages * 4096 < 2 ^ 64) (low : (h : ℕ) → IsFree h npages m.regions → g ≤ h) where
    abbrev block : ℕ × Mem
    block = call_valloc host (npages * 4096) m

    abbrev mapping : Status × Mem
    mapping = map_gpa host g npages block.0 block.1

    effect :
        (mapping.0 ≡ success → Extends (new_region g npages block.0) block.1 mapping.1)
        × (mapping.0 ≡ failure
            → SameMemory block.1 mapping.1
              × Withdrawn host (new_region g npages block.0) block.1 mapping.1.log)
    effect = map_gpa-effect host g npages block.0 block.1 v.layout (omega arith) (omega arith)

    mapping-Unchanged : block.0 ≢ 0 → mapping.0 ≡ failure → Unchanged m mapping.1
    mapping-Unchanged found e =
        let (regions, bytes, pml4, pml4_gpa) = (effect.1 e).0 in
        record {
          regions = regions;
          pml4 = pml4;
          pml4_gpa = pml4_gpa;
          views = same-view m mapping.1 regions λ a h.
              ap (λ f. f (gpa_to_hva m a)) bytes
              ∙ got_old host honest m v npages g pages size al free bound low a found h;
        }

    block-Allocation : Allocation npages m (use_block host npages g block.0 block.1)
    block-Allocation = elim (ℕ_discrete block.0 0) [
      | yes null ↦ rw (use_block-null host npages g block.0 block.1 null) (
          denied (
            Unchanged-logged (frees 0) (record {
              regions = refl;
              pml4 = refl;
              pml4_gpa = refl;
              views =
                  same-view m block.1 refl
                    λ a h. ap (λ f. f (gpa_to_hva m a)) (valloc_null host (npages * 4096) m null);
            })))
      | no found ↦
          rw (use_block-found host npages g block.0 block.1 found) (elim (Status-cases mapping.0) [
            | inl e ↦
                keep_block-done _ mapping e
                  (res-NewBlock host honest m v npages g pages size al free bound low found e)
            | inr e ↦ keep_block-failed _ mapping e (mapping-Unchanged found e)
          ])
    ]

    alloc_at-Allocation : Allocation npages m (alloc_at host npages g m)
    unfolding alloc_at
    alloc_at-Allocation =
        let wraps : size_of npages ≡ npages * 4096 = omega arith in rw wraps block-Allocation

    mapping-success : Willing host → mapping.0 ≡ success
    mapping-success w =
        let base : g ≡ g / 4096 * 4096 = omega arith in
        (map_gpa_iff host g npages block.0 block.1 v.layout (omega arith) (omega arith)).1 (
          pages,
          subst (λ b. IsFree b npages m.regions) base free,
          w.maps_all _ _ _ _,
          w.has_room _,
        )

    alloc_at-some :
        Willing host
        → alloc_at host npages g m ≡ (some (record { hva = block.0; gpa = g }), mapping.1)
    unfolding alloc_at
    alloc_at-some w =
        let wraps : size_of npages ≡ npages * 4096 = omega arith in
        rw wraps (
          use_block-found host npages g block.0 block.1 (w.has_memory m _)
          ∙ keep_block-success _ mapping (mapping-success w))

  -- In a state with well-formed regions, and with a host whose blocks are zeroed and share no
  -- memory, `vm_mem_alloc` either returns NULL and leaves guest memory as it was, or returns a
  -- block of zeros at page-aligned guest addresses that were not mapped before, and keeps every
  -- old byte. The free addresses found must end below 2 ^ 64.
  pub vm_mem_alloc-Allocation :
      ((g : ℕ) → find_free_mem_region npages m.regions ≡ some g → g + npages * 4096 < 2 ^ 64)
      → Allocation npages m (vm_mem_alloc host npages m)
  unfolding vm_mem_alloc
  vm_mem_alloc-Allocation fits = elim (find_free_mem_region-lowest npages m.regions size v.layout) [
    | inl (z, e) ↦
        rw (vm_mem_alloc, e)
          (denied (
            Unchanged-logged (frees 0)
              (record { regions = refl; pml4 = refl; pml4_gpa = refl; views = λ a. refl })))
    | inr (g, pages, e, al, free, low) ↦
        rw (vm_mem_alloc, e) (alloc_at-Allocation g pages al free (fits g e) low)
  ]

  -- In a state with well-formed regions, and with a host that grants every request, with zeroed
  -- blocks that share no memory, `vm_mem_alloc` of at least one page returns a block of zeros at
  -- page-aligned guest addresses that were not mapped before, and keeps every old byte. The free
  -- addresses found must end below 2 ^ 64.
  pub vm_mem_alloc-NewBlock :
      ((g : ℕ) → find_free_mem_region npages m.regions ≡ some g → g + npages * 4096 < 2 ^ 64)
      → 0 < npages
      → Willing host
      → (b : Block) × (m' : Mem) × (vm_mem_alloc host npages m ≡ (some b, m'))
        × NewBlock npages m b m'
  unfolding vm_mem_alloc
  vm_mem_alloc-NewBlock fits pages w =
      elim (find_free_mem_region-lowest npages m.regions size v.layout) [
        | inl (z, e) ↦ absurd (omega arith)
        | inr (g, _, e, al, free, low) ↦ (
          record { hva = (block g pages al free (fits g e) low).0; gpa = g },
          (mapping g pages al free (fits g e) low).1,
          rw (vm_mem_alloc, e) (alloc_at-some g pages al free (fits g e) low w),
          res-NewBlock host honest m v npages g pages size al free (fits g e) low (w.has_memory m _)
              (mapping-success g pages al free (fits g e) low w),
        )
      ]
