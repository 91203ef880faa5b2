-- ===== src/Mem/Gpa/Map.antt =====
-- `map_gpa`: its outcomes, when it succeeds, and what it leaves behind.
use masters_proj.Prelude.{
  ℕ, ◌+◌, ◌*◌, ◌/◌, ◌^◌, ◌<◌, ◌≡◌, refl, ◌⊎◌, inl, inr, ◌↔◌, true, false, List, ◌∷◌, arith, ltb,
  false≢true, All, u64, Bool-cases, sym, ◌∙◌,
}
use masters_proj.Prelude.Bits.{page_mask}
use masters_proj.Mem.State.{
  Region, HostCall, mallocs, maps, unmaps, Mem, Host, Status, success, failure, logged,
}
use masters_proj.Mem.Gpa.{size_of, reached, has_next, link_region, install_region, map_gpa}
use masters_proj.Mem.Gpa.Layout.{
  IsRegion, Layout, Apart, IsValid, insert, insert-Layout, insert-Separate,
}
use masters_proj.Mem.Gpa.Lookup.{Backs, Maps, insert-Maps, Maps-insert_new, Maps-insert_old}
use masters_proj.Mem.Gpa.Free.{IsFree, has_next-IsFree, IsFree-has_next}

-- The region that `map_gpa` makes of its arguments: its address is cut down to a page.
abbrev pub new_region : (gpa npages hva : ℕ) → Region
new_region gpa npages hva = record { gpa = gpa / 4096 * 4096; npages = npages; hva = hva }

-- The log after the calls that `map_gpa` makes.
abbrev pub after_map : Region → Mem → Mem
after_map r m = logged (maps r.hva r.gpa (size_of r.npages)) m

abbrev pub after_malloc : Region → Mem → Mem
after_malloc r m = logged mallocs (after_map r m)

-- How `map_gpa` ends: it rejects the request, the hypervisor refuses it, there is no room for a
-- node and the mapping is undone, or the region is linked.
pub data Mapping (host : Host) (r : Region) (m : Mem) : Status × Mem → Type 0 where
  rejected : (0 < r.npages → IsFree r.gpa r.npages m.regions → ⊥) → Mapping host r m (failure, m)
  refused :
      host.hv_vm_map m r.hva r.gpa (size_of r.npages) ≡ false
      → Mapping host r m (failure, after_map r m)
  undone :
      host.hv_vm_map m r.hva r.gpa (size_of r.npages) ≡ true
      → host.malloc (after_map r m) ≡ false
      → Mapping host r m (failure, logged (unmaps r.gpa (size_of r.npages)) (after_malloc r m))
  linked :
      0 < r.npages
      → IsFree r.gpa r.npages m.regions
      → host.hv_vm_map m r.hva r.gpa (size_of r.npages) ≡ true
      → host.malloc (after_map r m) ≡ true
      → Mapping host r m (success, record (after_malloc r m) { regions = insert r m.regions })

install_region-Mapping :
    (host : Host) (r : Region) (m : Mem)
    → 0 < r.npages
    → IsFree r.gpa r.npages m.regions
    → Mapping host r m (install_region host r m)
unfolding install_region link_region
install_region-Mapping host r m p f =
    elim (Bool-cases (host.hv_vm_map m r.hva r.gpa (size_of r.npages))) [
      | inl ok ↦ elim (Bool-cases (host.malloc (after_map r m))) [
        | inl room ↦ rw (ok, room) (linked p f ok room)
        | inr full ↦ rw (ok, full) (undone ok full)
      ]
      | inr no_map ↦ rw no_map (refused no_map)
    ]

module _ (host : Host) (gpa npages hva : ℕ) (m : Mem) where
  -- `map_gpa` ends in one of these ways, for any arguments that stay below the end of the address
  -- space.
  pub map_gpa-Mapping :
      Layout 0 m.regions
      → gpa < 2 ^ 64
      → gpa / 4096 * 4096 + npages * 4096 < 2 ^ 64
      → Mapping host (new_region gpa npages hva) m (map_gpa host gpa npages hva m)
  unfolding map_gpa
  map_gpa-Mapping l g b = elim (Bool-cases (ltb npages 1)) [
    | inl zero_pages ↦ rw zero_pages (rejected λ p f. ground arith)
    | inr some_pages ↦
        let p : 0 < npages = ground arith in
        let base = gpa / 4096 * 4096 in
        let wraps : u64 (base + size_of npages) ≡ base + npages * 4096 = omega arith in
        rw (some_pages, page_mask gpa g, wraps)
          (elim (Bool-cases (has_next (base + npages * 4096) (reached base m.regions))) [
            | inl fits ↦ rw fits (
                install_region-Mapping host _ m p
                  (has_next-IsFree 0 base npages m.regions p l fits))
            | inr overlaps ↦ rw overlaps (
                rejected
                  λ p f. false≢true (sym overlaps ∙ IsFree-has_next 0 base npages m.regions p l f))
          ])
  ]

-- The facts about a call of `map_gpa` whose arguments make a region that the host backs by memory
-- of its own.
pub record Request (r : Region) (m : Mem) : Type 0 where
  pub region : 0 < r.npages → IsRegion r
  pub apart : All (Apart r) m.regions

Mapping-IsValid :
    {host : Host} {r : Region} {m : Mem} {res : Status × Mem}
    → Mapping host r m res
    → Request r m
    → IsValid m.regions
    → IsValid res.1.regions
Mapping-IsValid (rejected _) q v = v
Mapping-IsValid (refused _) q v = v
Mapping-IsValid (undone _ _) q v = v
Mapping-IsValid {r} {m} (linked p f _ _) q v = record {
  layout =
      insert-Layout 0 r m.regions (omega arith) (q.region p) v.layout
        (IsFree-has_next 0 r.gpa r.npages m.regions p v.layout f);
  separate = insert-Separate r m.regions q.apart v.separate;
}

-- What a mapping leaves alone whatever its outcome, and what it makes of the regions.
abbrev pub Extends : Region → Mem → Mem → Type 0
Extends r m m' =
    ((a h : ℕ) → Maps m'.regions a h ↔ (Backs r a h ⊎ Maps m.regions a h))
    × (m'.bytes ≡ m.bytes)
    × (m'.pml4 ≡ m.pml4)
    × (m'.pml4_gpa ≡ m.pml4_gpa)

abbrev pub SameMemory : Mem → Mem → Type 0
SameMemory m m' =
    (m'.regions ≡ m.regions)
    × (m'.bytes ≡ m.bytes)
    × (m'.pml4 ≡ m.pml4)
    × (m'.pml4_gpa ≡ m.pml4_gpa)

-- The calls of a failed request: none, a refused one, or one that is taken back.
abbrev pub Withdrawn : Host → Region → Mem → List HostCall → Type 0
Withdrawn host r m log =
    (log ≡ m.log)
    ⊎ ((host.hv_vm_map m r.hva r.gpa (size_of r.npages) ≡ false) × (log ≡ (after_map r m).log))
    ⊎ (log ≡ unmaps r.gpa (size_of r.npages) ∷ (after_malloc r m).log)

Mapping-linked :
    {host : Host} {r : Region} {m : Mem} {res : Status × Mem}
    → Mapping host r m res
    → res.0 ≡ success
    → Extends r m res.1
Mapping-linked (rejected _) e = cc
Mapping-linked (refused _) e = cc
Mapping-linked (undone _ _) e = cc
Mapping-linked {r} {m} (linked p f _ _) e = (
  λ a h. (
    insert-Maps r m.regions,
    elim [ inl b ↦ Maps-insert_new r m.regions b | inr o ↦ Maps-insert_old r m.regions o ],
  ),
  refl,
  refl,
  refl,
)

Mapping-regions :
    {host : Host} {r : Region} {m : Mem} {res : Status × Mem}
    → Mapping host r m res
    → res.0 ≡ success
    → res.1.regions ≡ insert r m.regions
Mapping-regions (rejected _) e = cc
Mapping-regions (refused _) e = cc
Mapping-regions (undone _ _) e = cc
Mapping-regions (linked _ _ _ _) e = refl

Mapping-failed :
    {host : Host} {r : Region} {m : Mem} {res : Status × Mem}
    → Mapping host r m res
    → res.0 ≡ failure
    → SameMemory m res.1 × Withdrawn host r m res.1.log
Mapping-failed (rejected _) e = ((refl, refl, refl, refl), inl refl)
Mapping-failed (refused x) e = ((refl, refl, refl, refl), inr (inl (x, refl)))
Mapping-failed (undone _ _) e = ((refl, refl, refl, refl), inr (inr refl))
Mapping-failed (linked _ _ _ _) e = cc

-- The conditions under which a request succeeds.
abbrev pub Granted : Host → Region → Mem → Type 0
Granted host r m =
    (0 < r.npages)
    × IsFree r.gpa r.npages m.regions
    × (host.hv_vm_map m r.hva r.gpa (size_of r.npages) ≡ true)
    × (host.malloc (after_map r m) ≡ true)

Mapping-iff :
    {host : Host} {r : Region} {m : Mem} {res : Status × Mem}
    → Mapping host r m res
    → (res.0 ≡ success) ↔ Granted host r m
Mapping-iff (rejected no_way) = (λ e. cc, λ g. absurd (no_way g.0 g.1))
Mapping-iff (refused x) = (λ e. cc, λ g. cc)
Mapping-iff (undone x y) = (λ e. cc, λ g. cc)
Mapping-iff (linked p f x y) = (λ _. (p, f, x, y), λ _. refl)

module _ (host : Host) (gpa npages hva : ℕ) (m : Mem) where
  -- Well-formed regions stay well formed under `map_gpa`, whether it succeeds or fails, for a
  -- request of host memory that backs no other region, where the pages end below 2 ^ 64.
  pub map_gpa-IsValid :
      IsValid m.regions
      → gpa < 2 ^ 64
      → gpa / 4096 * 4096 + npages * 4096 < 2 ^ 64
      → 0 < hva
      → All (Apart (new_region gpa npages hva)) m.regions
      → IsValid (map_gpa host gpa npages hva m).1.regions
  map_gpa-IsValid v g b h apart =
      Mapping-IsValid (map_gpa-Mapping host gpa npages hva m v.layout g b)
        (record {
          region = λ p. record { nonempty = p; aligned = omega arith; bounded = b; mapped = h };
          apart = apart;
        })
        v

  -- In a well-formed list, and for pages that end below 2 ^ 64, `map_gpa` returns 0 exactly if at
  -- least one page is asked for, the pages meet no region, the hypervisor maps them, and there is
  -- room for a node.
  pub map_gpa_iff :
      Layout 0 m.regions
      → gpa < 2 ^ 64
      → gpa / 4096 * 4096 + npages * 4096 < 2 ^ 64
      → ((map_gpa host gpa npages hva m).0 ≡ success) ↔ Granted host (new_region gpa npages hva) m
  map_gpa_iff l g b = Mapping-iff (map_gpa-Mapping host gpa npages hva m l g b)

  -- In a well-formed list, and for pages that end below 2 ^ 64: on success exactly the new pages
  -- are mapped besides the old ones. On failure the memory is as before, and the hypervisor was
  -- not asked, has refused, or was asked to unmap the pages again.
  pub map_gpa-effect :
      Layout 0 m.regions
      → gpa < 2 ^ 64
      → gpa / 4096 * 4096 + npages * 4096 < 2 ^ 64
      → let r = new_region gpa npages hva in
        let res = map_gpa host gpa npages hva m in
        (res.0 ≡ success → Extends r m res.1)
        × (res.0 ≡ failure → SameMemory m res.1 × Withdrawn host r m res.1.log)
  map_gpa-effect l g b =
      let how = map_gpa-Mapping host gpa npages hva m l g b in
      (Mapping-linked how, Mapping-failed how)

  pub map_gpa-regions :
      Layout 0 m.regions
      → gpa < 2 ^ 64
      → gpa / 4096 * 4096 + npages * 4096 < 2 ^ 64
      → (map_gpa host gpa npages hva m).0 ≡ success
      → (map_gpa host gpa npages hva m).1.regions ≡ insert (new_region gpa npages hva) m.regions
  map_gpa-regions l g b = Mapping-regions (map_gpa-Mapping host gpa npages hva m l g b)
