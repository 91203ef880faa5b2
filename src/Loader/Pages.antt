-- ===== src/Loader/Pages.antt =====
-- Files as the system's calls show them, and what mapping one makes of guest memory.
use masters_proj.Prelude.{
  ℕ, List, zero, All, ◌+◌, ◌*◌, ◌/◌, ◌%◌, ◌^◌, ◌≤◌, ◌<◌, ◌≡◌, ◌≢◌, refl, ◌⊎◌, inl, inr, some, suc,
  arith, sym, ◌∙◌, ap,
}
use masters_proj.Prelude.Bytes.{slice}
use masters_proj.Mem.State.{Mem, Host, Status, success}
use masters_proj.Mem.Gpa.{gpa_to_hva, map_gpa}
use masters_proj.Mem.Gpa.Layout.{Apart, IsValid, insert-All, end_of}
use masters_proj.Mem.Gpa.Lookup.{Maps-outside, Backs, gpa_to_hva-Maps_iff}
use masters_proj.Mem.Gpa.Map.{
  new_region, map_gpa-IsValid, map_gpa_iff, map_gpa-effect, map_gpa-regions,
}
use masters_proj.Mem.Access.Alloc.{
  Willing, Below, Below-IsFree, Below-add, free-not-Maps, view-of, view-bytes,
}
use masters_proj.Mem.Access.Grant.{same-view, same-hva}
use masters_proj.Mem.Access.View.{view, Mapped}
use masters_proj.Mem.Paging.Tree.{Tree, IsTree-kept}
use masters_proj.Mem.Paging.Root.{IsPaged}
use masters_proj.Loader.{System, num_pages_of}

-- A file with `size` bytes, and <sys/mman.h>'s `mmap` of it: the pages that it gives hold the
-- file's bytes, and are no memory that is in use.
pub record IsFile (sys : System) (path : List ℕ) (size : ℕ) (contents : ℕ → ℕ) : Type 0 where
  pub fd : ℕ
  pub opened : sys.open_fd path ≡ some fd
  pub sized : sys.stat path ≡ some size
  pub mapped : (m : Mem) → (sys.mmap m size (some fd)).0 ≢ 0
  pub inside :
      (m : Mem) (i : ℕ) → i < size → let r = sys.mmap m size (some fd) in r.1 (r.0 + i) ≡ contents i
  pub apart :
      (m : Mem) (g : ℕ)
      → All
          (Apart
            (record { gpa = g; npages = num_pages_of size; hva = (sys.mmap m size (some fd)).0 }))
          m.regions
  pub outside :
      (m : Mem) (a : ℕ)
      → let r = sys.mmap m size (some fd) in
        (a < r.0) ⊎ (r.0 + num_pages_of size * 4096 ≤ a) → r.1 a ≡ m.bytes a

pub slice-same :
    (f g : ℕ → ℕ) (a b n : ℕ)
    → ((i : ℕ) → i < n → f (a + i) ≡ g (b + i))
    → slice f a n ≡ slice g b n
slice-same f g a b zero same = refl
slice-same f g a b (suc n) same =
    let head : f a ≡ g b = ap f (omega arith) ∙ same 0 (omega arith) ∙ ap g (omega arith) in
    let tail =
      slice-same f g (a + 1) (b + 1) n
        λ i lt. ap f (omega arith) ∙ same (suc i) (omega arith) ∙ ap g (omega arith) in
    rw (head, tail)

module _ {sys : System} {path : List ℕ} {size : ℕ} {contents : ℕ → ℕ}
    (is : IsFile sys path size contents) (m : Mem) (valid : IsValid m.regions) where
  -- The state after `mmap`.
  abbrev pub hva : ℕ
  hva = (sys.mmap m size (some is.fd)).0

  abbrev pub after_mmap : Mem
  after_mmap = record m { bytes = (sys.mmap m size (some is.fd)).1 }

  pub view-after_mmap : (a : ℕ) → view after_mmap a ≡ view m a
  view-after_mmap = same-view m after_mmap refl λ a ma. is.outside m (gpa_to_hva m a) (
      Maps-outside (record { gpa = 0; npages = num_pages_of size; hva = hva }) m.regions
        (is.apart m 0) ((gpa_to_hva-Maps_iff m a _ valid).0 (refl, ma)))

  pub slice-after_mmap : slice after_mmap.bytes hva size ≡ slice contents 0 size
  slice-after_mmap =
      slice-same after_mmap.bytes contents hva 0 size
        λ i lt. is.inside m i lt ∙ ap contents (omega arith)

-- What mapping the pages of a file at `gpa` makes of guest memory.
pub record FilePages (gpa npages size : ℕ) (contents : ℕ → ℕ) (m m' : Mem) : Type 0 where
  pub valid : IsValid m'.regions
  pub below : Below (gpa + npages * 4096) m'.regions
  pub pml4 : m'.pml4 ≡ m.pml4
  pub pml4_gpa : m'.pml4_gpa ≡ m.pml4_gpa
  pub old : (a : ℕ) → Mapped m a → Mapped m' a × (view m' a ≡ view m a)
  pub fresh : (i : ℕ) → i < npages * 4096 → ¬ Mapped m (gpa + i)
  pub holds : (i : ℕ) → i < size → view m' (gpa + i) ≡ some (contents i)

-- Page tables stay what they are.
pub FilePages-IsPaged :
    {gpa npages size : ℕ} {contents : ℕ → ℕ} (T : Tree) (m m' : Mem)
    → FilePages gpa npages size contents m m'
    → IsPaged T m
    → IsPaged T m'
FilePages-IsPaged T m m' p (inl (ne, tree)) =
    inl (λ z. ne (sym p.pml4 ∙ z), IsTree-kept T m m' p.valid p.pml4_gpa p.old tree)
FilePages-IsPaged T m m' p (inr (e, v, empty)) = inr (p.pml4 ∙ e, p.valid, empty)

ne_lt : (a : ℕ) → a ≢ 0 → 0 < a
ne_lt a ne = omega arith

pub num_pages_of-le : (size : ℕ) → size ≤ num_pages_of size * 4096
unfolding num_pages_of
num_pages_of-le size = ground arith

pub num_pages_of-small : (size : ℕ) → num_pages_of size ≤ size / 4096 + 1
unfolding num_pages_of
num_pages_of-small size = ground arith

module _ {sys : System} {path : List ℕ} {size : ℕ} {contents : ℕ → ℕ}
    (is : IsFile sys path size contents) (host : Host) (willing : Willing host) (m : Mem)
    (valid : IsValid m.regions) (gpa : ℕ) (al : gpa % 4096 ≡ 0) (below : Below gpa m.regions)
    (some_bytes : 0 < size) (bound : gpa + num_pages_of size * 4096 < 2 ^ 64) where
  abbrev npages : ℕ
  npages = num_pages_of size

  abbrev m₁ : Mem
  m₁ = after_mmap is m valid

  abbrev h : ℕ
  h = hva is m valid

  abbrev pub res : Status × Mem
  res = map_gpa host gpa npages h m₁

  pub map_gpa-FilePages : (res.0 ≡ success) × FilePages gpa npages size contents m res.1
  map_gpa-FilePages =
      let base : gpa / 4096 * 4096 ≡ gpa = omega arith in
      let b : gpa / 4096 * 4096 + npages * 4096 < 2 ^ 64 = omega arith in
      let pages : 0 < npages = omega (arith, num_pages_of-le size) in
      let free = Below-IsFree gpa npages m.regions below in
      let ok =
        (map_gpa_iff host gpa npages h m₁ valid.layout (omega arith) b).1
          (pages, rw base free, willing.maps_all _ _ _ _, willing.has_room _) in
      let v₁ =
        map_gpa-IsValid host gpa npages h m₁ valid (omega arith) b (ne_lt h (is.mapped m))
          (is.apart m (gpa / 4096 * 4096)) in
      let grow = (map_gpa-effect host gpa npages h m₁ valid.layout (omega arith) b).0 ok in
      (
        ok,
        record {
          valid = v₁;
          below = rw (map_gpa-regions host gpa npages h m₁ valid.layout (omega arith) b ok) (
              insert-All (λ r. end_of r ≤ gpa + npages * 4096) (new_region gpa npages h) m.regions
                (omega arith) (Below-add gpa (npages * 4096) m.regions below));
          pml4 = grow.2;
          pml4_gpa = grow.3;
          old = λ a ma.
              let ma₁ : Mapped m₁ a = λ z. ma (sym (same-hva m m₁ a refl) ∙ z) in
              let mm = (gpa_to_hva-Maps_iff m₁ a (gpa_to_hva m₁ a) valid).0 (refl, ma₁) in
              let at = (gpa_to_hva-Maps_iff res.1 a _ v₁).1 ((grow.0 a _).1 (inr mm)) in
              (
                λ z. ma₁ (sym at.0 ∙ z),
                view-bytes m₁ res.1 a at.0 (ap (λ f. f (gpa_to_hva m₁ a)) grow.1)
                    ∙ view-after_mmap is m valid a,
              );
          fresh = λ i lt ma.
              free-not-Maps gpa npages (gpa + i) m.regions free (omega arith) (omega arith)
                ((gpa_to_hva-Maps_iff m (gpa + i) _ valid).0 (refl, ma));
          holds = λ i lt.
              let le = num_pages_of-le size in
              let backs : Backs (new_region gpa npages h) (gpa + i) (h + i) = record {
                above = omega arith;
                below = omega arith;
                at = omega arith;
              } in
              let at =
                (gpa_to_hva-Maps_iff res.1 (gpa + i) _ v₁).1 ((grow.0 (gpa + i) _).1 (inl backs)) in
              view-of res.1 (gpa + i) (h + i) (contents i) at.0 at.1
                (ap (λ f. f (h + i)) grow.1 ∙ is.inside m i lt);
        },
      )
