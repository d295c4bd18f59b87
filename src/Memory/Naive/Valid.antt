-- ===== src/Memory/Naive/Valid.antt =====
-- Kernel/memory/naiveManager.c: the invariant of the manager, and what each change of the list does to
-- the cells.
use tp2_sistemas_operativos.Prelude.{
  ℕ, ◌+◌, ◌-◌, ◌*◌, ◌%◌, ◌^◌, ◌≤◌, ◌<◌, ◌≡◌, ◌≢◌, refl, sym, ap, subst, ◌∙◌, arith, List, [], ◌∷◌,
  ◌++◌, Bool, true, update, update_self, update_ne,
}
use tp2_sistemas_operativos.Memory.Naive.{Block, Naive, put_block, set_prev, split_block}
use tp2_sistemas_operativos.Memory.Naive.Chain.{
  Cell, total, IsBlock, Chain, Chain-total, Chain-split, Chain-join, Part-before, Chain-behind,
  Chain-same, Chain-pointer,
}

pub total-append : (xs ys : List Cell) → total (xs ++ ys) ≡ total xs + total ys
total-append [] ys = omega arith
total-append (c ∷ cs) ys = omega (arith, total-append cs ys)

-- The blocks of the list are the cells, and fill the pool.
pub record IsValid (m : Naive) (cells : List Cell) : Type 0 where
  pub pos : 0 < m.first_block
  pub small : m.memory_pool_size + 8 < 2 ^ 32
  pub chain :
      Chain m.blocks 0 m.first_block m.first_block cells (m.first_block + m.memory_pool_size)

pub set_prev-other :
    (p b j : ℕ) (m : Naive) → (p ≢ 0 → p ≢ j) → (set_prev p b m).blocks j ≡ m.blocks j
unfolding set_prev
set_prev-other p b j m h = ground arith

pub set_prev-at :
    (p b : ℕ) (m : Naive) → p ≢ 0 → (set_prev p b m).blocks p ≡ record (m.blocks p) { prev = b }
unfolding set_prev
set_prev-at p b m h = ground arith

abbrev pub shortened : ℕ → ℕ → Block → Block
shortened next size x = record x { next = next; size = size }

abbrev pub linked_back : ℕ → Block → Block
linked_back prev x = record x { prev = prev }

-- The address of the block behind the cells `pre`.
abbrev pub address : Naive → List Cell → ℕ
address m pre = m.first_block + total pre

module _ (m : Naive) (pre : List Cell) (s : ℕ) (x : Bool) (post : List Cell)
    (v : IsValid m (pre ++ (s, x) ∷ post)) where
  abbrev pub b : ℕ
  b = address m pre

  abbrev pub stop : ℕ
  stop = m.first_block + m.memory_pool_size

  pub size_bound : (s < 2 ^ 32) × (b + 24 + s ≤ stop)
  size_bound = omega (
    arith,
    v.small,
    Chain-total m.blocks 0 m.first_block m.first_block (pre ++ (s, x) ∷ post) stop v.chain,
    total-append pre ((s, x) ∷ post),
  )

  -- The header at `b`.
  pub header :
      (last : ℕ) × IsBlock (m.blocks b) last (s, x)
      × Chain m.blocks b (m.blocks b).next (b + 24 + s) post stop
  header =
      let (last, q, part, rest) =
        Chain-split m.blocks 0 m.first_block m.first_block pre ((s, x) ∷ post) stop v.chain in
      (last, rest.1, rest.2)

  pub next_pointer : (m.blocks b).next ≢ 0 → (m.blocks b).next ≡ b + 24 + s
  next_pointer =
      let (last, here, rest) = header in
      Chain-pointer m.blocks b (m.blocks b).next (b + 24 + s) post stop rest

  -- A change at `b` and behind it, which gives the cells `cs` there.
  pub rebuild :
      (f' : ℕ → Block) (cs : List Cell)
      → ((j : ℕ) → j < b → f' j ≡ m.blocks j)
      → ((last : ℕ)
          → IsBlock (m.blocks b) last (s, x)
          → Chain m.blocks b (m.blocks b).next (b + 24 + s) post stop
          → Chain f' last b b cs stop)
      → IsValid (record m { blocks = f' }) (pre ++ cs)
  rebuild f' cs same build =
      let first = m.first_block in
      let (last, q, part, rest) =
        Chain-split m.blocks 0 first first pre ((s, x) ∷ post) stop v.chain in
      record {
        pos = v.pos;
        small = v.small;
        chain =
            Chain-join f' 0 first first pre cs last q b stop
              (Part-before m.blocks f' 0 first first pre last q b same part)
              (subst (λ p. Chain f' last p b cs stop) (sym rest.0) (build last rest.1 rest.2));
      }

  pub mark-IsValid :
      (y : Bool) → IsValid (put_block b (record (m.blocks b) { free = y }) m) (pre ++ (s, y) ∷ post)
  mark-IsValid y =
      let f = m.blocks in
      let f' = update f b (record (f b) { free = y }) in
      let at : f' b ≡ record (f b) { free = y } = update_self f _ b in
      rebuild f' ((s, y) ∷ post) (λ j lt. update_ne f _ (λ e. absurd (omega arith)))
        λ last here rest. (
          refl,
          subst (λ t. IsBlock t last (s, y)) (sym at)
              (record { size = here.size; free = refl; prev = here.prev }),
          subst (λ t. Chain f' b t.next (b + 24 + s) post stop) (sym at)
              (Chain-same f f' b (f b).next (b + 24 + s) post stop
                (λ j lt. update_ne f _ (λ e. absurd (omega arith))) rest),
        )

  -- The headers after `splitBlock`.
  module _ (req : ℕ) (small : req + 24 ≤ s) (n : ℕ) (link : (m.blocks b).next ≡ n)
      (behind : n ≢ 0 → n ≡ b + 24 + s) where
    abbrev new : ℕ
    new = b + 24 + req

    m1 : Naive
    m1 =
        put_block new
          (record {
            size = ((m.blocks b).size + 2 * 2 ^ 32 - req - 24) % 2 ^ 32;
            free = true;
            next = (m.blocks b).next;
            prev = b;
          })
          m

    before_split : m1.blocks b ≡ m.blocks b
    unfolding m1
    before_split = update_ne m.blocks _ {i = new} {j = b} (λ e. absurd (omega arith))

    pointer : (m1.blocks b).next ≡ n
    pointer = ap (λ t. t.next) before_split ∙ link

    m2 : Naive
    m2 = set_prev (m1.blocks b).next new m1

    m2-other : (j : ℕ) → (n ≢ 0 → n ≢ j) → m2.blocks j ≡ m1.blocks j
    unfolding m2
    m2-other j h =
        set_prev-other (m1.blocks b).next new j m1
          (λ nz e. h (λ z. nz (pointer ∙ z)) (sym pointer ∙ e))

    split-at : (split_block b req m).blocks b ≡ record (m.blocks b) { next = new; size = req }
    unfolding split_block m1 m2
    split-at =
        update_self m2.blocks _ b
        ∙ ap (shortened new req)
            (m2-other b (λ nz e. absurd (omega (arith, behind nz))) ∙ before_split)

    split-new :
        (m.blocks b).size ≡ s
        → (split_block b req m).blocks new
          ≡ record { size = s - req - 24; free = true; next = n; prev = b }
    unfolding split_block m1 m2
    split-new e =
        update_ne m2.blocks _ (λ z. absurd (omega arith))
        ∙ m2-other new (λ nz z. absurd (omega (arith, behind nz)))
        ∙ update_self m.blocks _ new
        ∙ (λ i. record { size = left_over i; free = true; next = link i; prev = b })
      where
        left_over : ((m.blocks b).size + 2 * 2 ^ 32 - req - 24) % 2 ^ 32 ≡ s - req - 24
        left_over = omega (arith, size_bound)

    split-behind : n ≢ 0 → (split_block b req m).blocks n ≡ record (m.blocks n) { prev = new }
    unfolding split_block m1 m2
    split-behind h =
        update_ne m2.blocks _ (λ z. absurd (omega (arith, behind h)))
        ∙ subst (λ p. (set_prev p new m1).blocks n ≡ record (m1.blocks n) { prev = new })
            (sym pointer) (set_prev-at n new m1 h)
        ∙ ap (linked_back new)
            (update_ne m.blocks _ {i = new} {j = n} (λ z. absurd (omega (arith, behind h))))

    split-other :
        (j : ℕ) → j ≢ b → j ≢ new → (n ≢ 0 → n ≢ j) → (split_block b req m).blocks j ≡ m.blocks j
    unfolding split_block m1 m2
    split-other j h1 h2 h3 =
        update_ne m2.blocks _ (λ z. h1 (sym z))
        ∙ m2-other j h3
        ∙ update_ne m.blocks _ (λ z. h2 (sym z))

  pub split-IsValid :
      (req : ℕ)
      → req + 24 ≤ s
      → IsValid (split_block b req m) (pre ++ (req, x) ∷ (s - req - 24, true) ∷ post)
  unfolding split_block set_prev
  split-IsValid req h =
      let n = (m.blocks b).next in
      let new = b + 24 + req in
      let f' = (split_block b req m).blocks in
      let other = split-other req h n refl next_pointer in
      let (before, block, _) = header in
      let at = split-at req h n refl next_pointer in
      let at_new = split-new req h n refl next_pointer block.size in
      rebuild f' ((req, x) ∷ (s - req - 24, true) ∷ post)
        (λ j lt.
          other j (λ e. absurd (omega arith)) (λ e. absurd (omega arith))
            (λ nz e. absurd (omega (arith, next_pointer nz))))
        λ last here rest. (
          refl,
          subst (λ t. IsBlock t last (req, x)) (sym at)
              (record { size = refl; free = here.free; prev = here.prev }),
          (
            ap (λ t. t.next) at,
            subst (λ t. IsBlock t b (s - req - 24, true)) (sym at_new)
                (record { size = refl; free = refl; prev = refl }),
            subst (λ t. Chain f' new t.next (new + 24 + (s - req - 24)) post stop) (sym at_new)
                (Chain-behind m.blocks f' b new n (new + 24 + (s - req - 24)) post stop
                  (λ j lt.
                    other j (λ e. absurd (omega arith)) (λ e. absurd (omega arith))
                      (λ nz e. absurd (omega (arith, next_pointer nz))))
                  (λ nz.
                    subst (λ a. f' a ≡ linked_back new (m.blocks a))
                      (omega (arith, next_pointer nz)) (split-behind req h n refl next_pointer nz))
                  (omega arith) (subst (λ a. Chain m.blocks b n a post stop) (omega arith) rest)),
          ),
        )
