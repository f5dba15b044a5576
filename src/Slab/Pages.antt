-- ===== src/Slab/Pages.antt =====
-- kernel/mm/slab.c: a page that is taken off a list or changed on it.
use os2025_yyds.Common.{
  ℕ, ◌+◌, ◌<◌, ◌≡◌, refl, ◌⊎◌, inl, inr, Bool, true, false, ◌||◌, List, [], ◌∷◌, none, some, arith,
  ◌==◌, if◌then◌else◌, length, count, All, Bool-cases, Option-cases,
}
use os2025_yyds.Slab.{SlabPage, Cache, slab_size, remove_page, replace_page}
use os2025_yyds.Slab.Invariant.{IsPartial, IsFull, IsEmpty, objs}

-- How often an object is free on a page, when the page has the address `a`.
abbrev pub one_at : ℕ → ℕ → SlabPage → ℕ
one_at a q sp = if sp.address == a then count q sp.freelist else 0

-- How often an object is free on the pages with the address `a` of a list, and of a cache.
abbrev pub objs_at : ℕ → ℕ → List SlabPage → ℕ
objs_at a q [] = 0
objs_at a q (sp ∷ sps) = one_at a q sp + objs_at a q sps

abbrev pub free_at : ℕ → ℕ → Cache → ℕ
free_at a q c = objs_at a q c.partial + objs_at a q c.full + objs_at a q c.empty

-- Whether a page with the address is on the list.
abbrev pub on_list : ℕ → List SlabPage → Bool
on_list a [] = false
on_list a (sp ∷ sps) = sp.address == a || on_list a sps

pub remove_page-none : (a : ℕ) (l : List SlabPage) → remove_page a l ≡ none → on_list a l ≡ false
unfolding remove_page
remove_page-none a [] h = refl
remove_page-none a (sp ∷ sps) h = elim (Bool-cases (sp.address == a)) [
  | inl e ↦ absurd (not_none (rw e at h))
  | inr e ↦ elim (Option-cases (remove_page a sps)) [
    | inl later ↦ rw e (remove_page-none a sps later)
    | inr (got, later) ↦ absurd (not_none (rw (e, later) at h))
  ]
]
  where
    not_none : {x : SlabPage × List SlabPage} → some x ≡ none → ⊥
    not_none h = cc

-- A list in two parts: the page with the address, and the others.
pub record Splits {κ} (P : SlabPage → Type κ) (a : ℕ) (l : List SlabPage) (page : SlabPage)
    (rest : List SlabPage) : Type κ where
  pub at : (page.address == a) ≡ true
  pub it : P page
  pub others : All P rest
  pub counts : (q : ℕ) → objs q l ≡ count q page.freelist + objs q rest
  pub places : (b q : ℕ) → objs_at b q l ≡ one_at b q page + objs_at b q rest
  pub listed : on_list a l ≡ true
  pub replaced :
      (new : SlabPage)
      → P new
      → All P (replace_page a new l)
        × ((q : ℕ) → objs q (replace_page a new l) ≡ count q new.freelist + objs q rest)
        × ((b q : ℕ) → objs_at b q (replace_page a new l) ≡ one_at b q new + objs_at b q rest)

pub remove_page-Splits {κ} :
    (P : SlabPage → Type κ) (a : ℕ) (l : List SlabPage)
    → All P l
    → (remove_page a l ≡ none)
      ⊎ ((page : SlabPage) × (rest : List SlabPage) × (remove_page a l ≡ some (page, rest))
          × Splits P a l page rest)
unfolding remove_page replace_page
remove_page-Splits P a [] h = inl refl
remove_page-Splits P a (sp ∷ sps) (it, others) = elim (Bool-cases (sp.address == a)) [
  | inl e ↦ inr (
    sp,
    sps,
    rw e refl,
    record {
      at = e;
      it = it;
      others = others;
      counts = λ q. refl;
      places = λ b q. refl;
      listed = rw e refl;
      replaced = λ new h. rw e ((h, others), (λ q. refl), λ b q. refl);
    },
  )
  | inr e ↦ elim (remove_page-Splits P a sps others) [
    | inl later ↦ inl (rw (e, later) refl)
    | inr (page, rest, later, s) ↦ inr (
      page,
      sp ∷ rest,
      rw (e, later) refl,
      record {
        at = s.at;
        it = s.it;
        others = (it, s.others);
        counts = λ q. omega (arith, s.counts q);
        places = λ b q. omega (arith, s.places b q);
        listed = rw e s.listed;
        replaced = λ new h. rw e (
          (it, (s.replaced new h).0),
          (λ q. omega (arith, (s.replaced new h).1 q)),
          λ b q. omega (arith, (s.replaced new h).2 b q),
        );
      },
    )
  ]
]

-- A cache whose list `partial` has a page with room for an object to come back; all its other pages
-- stand where they belong.
pub record HasRoom (i a : ℕ) (c : Cache) : Type 0 where
  pub page : SlabPage
  pub rest : List SlabPage
  pub found : remove_page a c.partial ≡ some (page, rest)
  pub number : page.free_objs ≡ length page.freelist
  pub room : page.free_objs < page.total_objs
  pub many : 1 < page.total_objs
  pub size : c.obj_size ≡ slab_size i
  pub partials : All IsPartial rest
  pub fulls : All IsFull c.full
  pub empties : All IsEmpty c.empty
  pub counts : (q : ℕ) → objs q c.partial ≡ count q page.freelist + objs q rest
  pub at : (page.address == a) ≡ true
  pub places : (b q : ℕ) → objs_at b q c.partial ≡ one_at b q page + objs_at b q rest
  pub replaced :
      (new : SlabPage)
      → IsPartial new
      → All IsPartial (replace_page a new c.partial)
        × ((q : ℕ) → objs q (replace_page a new c.partial) ≡ count q new.freelist + objs q rest)
        × ((b q : ℕ)
            → objs_at b q (replace_page a new c.partial) ≡ one_at b q new + objs_at b q rest)
