-- ===== src/Memory/Buddy/Valid/Overlap.antt =====
-- The block that `allocMemory` of Kernel/memory/buddyManager.c gives overlaps no other.
use tp2_sistemas_operativos.Prelude.{
  ℕ, ◌+◌, ◌-◌, ◌^◌, ◌≤◌, ◌<◌, ◌≡◌, ◌≢◌, ◌⊎◌, inl, inr, refl, sym, ap, subst, ◌∙◌, List, [], ◌∷◌,
  ◌++◌, arith, All, Option, none, some,
}
use tp2_sistemas_operativos.Memory.Powers.{two_pow_pos}
use tp2_sistemas_operativos.Memory.Buddy.{Buddy, Nodes, place, alloc_memory}
use tp2_sistemas_operativos.Memory.Buddy.Tree.{Tree, Block}
use tp2_sistemas_operativos.Memory.Buddy.Tree.Blocks.{Apart, blocks-Apart, HasBlock-bounds}
use tp2_sistemas_operativos.Memory.Buddy.Valid.{in_use, IsValid}
use tp2_sistemas_operativos.Memory.Buddy.Valid.Sums.{All-mono, starts-ge, total-le}
use tp2_sistemas_operativos.Memory.Buddy.Valid.Alloc.{Granted, alloc_memory_lem}
use tp2_sistemas_operativos.Memory.Buddy.Valid.Requests.{placed}

-- `b` ends before `(x, k)` begins, or begins after it ends.
abbrev pub Clear : ℕ → ℕ → Block → Type 0
Clear x k b = (b.0 + 2 ^ b.1 ≤ x) ⊎ (x + 2 ^ k ≤ b.0)

Apart-le : (lo hi : ℕ) (bs : List Block) → Apart lo hi bs → lo ≤ hi
Apart-le lo hi bs a = omega (arith, total-le lo hi bs a)

others-Clear :
    (lo hi x k : ℕ) (before after : List Block)
    → Apart lo hi (before ++ ((x, k) ∷ after))
    → (lo ≤ x) × All (Clear x k) (before ++ after)
others-Clear lo hi x k [] after a =
    (a.0, All-mono (λ b h. inr h) after (starts-ge (x + 2 ^ k) hi after a.1))
others-Clear lo hi x k ((y, j) ∷ before) after a =
    let rest = others-Clear (y + 2 ^ j) hi x k before after a.1 in
    (omega (arith, rest.0, two_pow_pos j, a.0), (inl rest.0, rest.1))

-- The bytes of a granted request lie inside the pool, behind the header, and the block around them is
-- clear of every block that was in use.
granted-Clear :
    (m : Buddy) (t : Tree) (size : ℕ) (v : IsValid m t) (g : Granted m t size)
    → (g.offset + 8 + size ≤ m.pool_size) × All (Clear g.offset g.want) (in_use m t)
granted-Clear m t size v g = (
  omega (arith, v.size, g.fits, HasBlock-bounds g.want g.offset m.max_order 0 g.tree g.added.held),
  rw g.added.old
      (others-Clear 0 (0 + 2 ^ m.max_order) g.offset g.want g.added.before g.added.after
        (rw g.added.new at (blocks-Apart m.max_order 0 g.tree))).1,
)

-- The `size` bytes at `p` and the header before them do not meet the block `b` of the pool.
abbrev pub Outside : ℕ → ℕ → ℕ → Block → Type 0
Outside base p size b = (base + b.0 + 2 ^ b.1 + 8 ≤ p) ⊎ (p + size ≤ base + b.0)

placed-keeps :
    (want offset : ℕ) (m : Buddy) (nodes : Nodes) (t : Tree)
    → ((placed want offset m nodes).pool_base ≡ m.pool_base)
      × ((placed want offset m nodes).pool_size ≡ m.pool_size)
      × (in_use (placed want offset m nodes) t ≡ in_use m t)
unfolding place
placed-keeps want offset m nodes t = (refl, refl, refl)

-- The request that the answer `p` was given to.
record Given (m : Buddy) (t : Tree) (size p : ℕ) (m' : Buddy) : Type 0 where
  grant : Granted m t size
  pointer : p ≡ m.pool_base + grant.offset + 8
  after : m' ≡ placed grant.want grant.offset m grant.nodes

same_answer :
    {p q : ℕ} {m m' : Buddy}
    → ◌≡◌ {A = Option (ℕ × Buddy)} (some (p, m)) (some (q, m'))
    → (p ≡ q) × (m ≡ m')
same_answer {p} {q} {m} {m'} e =
    let pick : Option (ℕ × Buddy) → ℕ × Buddy = λ o. elim o [ none ↦ (p, m) | some r ↦ r ] in
    (ap (λ o. (pick o).0) e, ap (λ o. (pick o).1) e)

given :
    (m : Buddy) (t : Tree) (size p : ℕ) (m' : Buddy)
    → IsValid m t
    → 8 < size
    → size ≤ 2 ^ 31 - 16
    → alloc_memory size m ≡ some (p, m')
    → p ≢ 0
    → Given m t size p m'
given m t size p m' v lo hi e ne = elim (alloc_memory_lem m t size v lo hi) [
  | inl r ↦ absurd (ne (same_answer (sym e ∙ r.answer)).0)
  | inr g ↦
      let (pointer, after) = same_answer (sym e ∙ g.answer) in
      record { grant = g; pointer = pointer; after = after }
]

outside :
    (base x k p size : ℕ) (b : Block)
    → p ≡ base + x + 8
    → size + 8 ≤ 2 ^ k
    → Clear x k b
    → Outside base p size b
outside base x k p size b e f (inl h) = inl (omega arith)
outside base x k p size b e f (inr h) = inr (omega arith)

middle :
    (P : Block → Type 0) (before after : List Block) (b : Block)
    → All P (before ++ (b ∷ after))
    → P b
middle P [] after b h = h.0
middle P (c ∷ before) after b h = middle P before after b h.1

-- Two requests that `allocMemory` grants one after the other, each of 9 bytes up to 2^31 - 16: the
-- bytes of both lie inside the pool, those of the first and their header meet no block that was in
-- use before, and neither meets the other or its header.
pub alloc_memory-apart :
    (m m1 m2 : Buddy) (t : Tree) (a b p q : ℕ)
    → IsValid m t
    → 8 < a
    → a ≤ 2 ^ 31 - 16
    → 8 < b
    → b ≤ 2 ^ 31 - 16
    → alloc_memory a m ≡ some (p, m1)
    → p ≢ 0
    → alloc_memory b m1 ≡ some (q, m2)
    → q ≢ 0
    → (m.pool_base + 8 ≤ p)
      × (p + a ≤ m.pool_base + m.pool_size)
      × All (Outside m.pool_base p a) (in_use m t)
      × (m.pool_base + 8 ≤ q)
      × (q + b ≤ m.pool_base + m.pool_size)
      × ((p + a + 8 ≤ q) ⊎ (q + b + 8 ≤ p))
alloc_memory-apart m m1 m2 t a b p q v la ha lb hb ea na eb nb =
    let first = given m t a p m1 v la ha ea na in
    let g = first.grant in
    let second =
      given (placed g.want g.offset m g.nodes) g.tree b q m2 g.valid lb hb
        (sym (ap (alloc_memory b) first.after) ∙ eb) nb in
    let (room, clear) = granted-Clear m t a v g in
    let (room', clear') =
      granted-Clear (placed g.want g.offset m g.nodes) g.tree b g.valid second.grant in
    let (base, size, same) = placed-keeps g.want g.offset m g.nodes g.tree in
    let at : q ≡ m.pool_base + second.grant.offset + 8 =
      second.pointer ∙ ap (λ x. x + second.grant.offset + 8) base in
    (
      omega (arith, first.pointer),
      omega (arith, first.pointer, room),
      All-mono (λ c h. outside m.pool_base g.offset g.want p a c first.pointer g.fits h)
          (in_use m t) clear,
      omega (arith, at),
      omega (arith, at, room', size),
      apart (m.pool_base) g.offset g.want second.grant.offset second.grant.want p a q b
          first.pointer at g.fits second.grant.fits
          (middle _ g.added.before g.added.after (g.offset, g.want)
            (subst (All (Clear second.grant.offset second.grant.want)) (same ∙ g.added.new)
              clear')),
    )
  where
    apart :
        (base x k y j p a q b : ℕ)
        → p ≡ base + x + 8
        → q ≡ base + y + 8
        → a + 8 ≤ 2 ^ k
        → b + 8 ≤ 2 ^ j
        → Clear y j (x, k)
        → (p + a + 8 ≤ q) ⊎ (q + b + 8 ≤ p)
    apart base x k y j p a q b e f ha hb (inl h) = inl (omega arith)
    apart base x k y j p a q b e f ha hb (inr h) = inr (omega arith)
