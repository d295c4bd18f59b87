-- ===== src/Memory/Naive/Join.antt =====
-- Kernel/memory/naiveManager.c: a block takes in the one behind it.
use tp2_sistemas_operativos.Prelude.{
  ℕ, ◌+◌, ◌%◌, ◌^◌, ◌≤◌, ◌≡◌, ◌≢◌, refl, sym, ap, subst, ◌∙◌, arith, List, ◌∷◌, ◌++◌, Bool,
  update_self, update_ne,
}
use tp2_sistemas_operativos.Memory.Naive.{Naive, put_block, set_prev, absorb}
use tp2_sistemas_operativos.Memory.Naive.Chain.{
  Cell, IsBlock, Chain, Chain-total, Chain-behind, Chain-pointer,
}
use tp2_sistemas_operativos.Memory.Naive.Valid.{
  IsValid, address, total-append, set_prev-other, set_prev-at, shortened, linked_back, header,
  rebuild,
}

-- A free block and the one behind it become one.
module _ (m : Naive) (pre : List Cell) (s : ℕ) (x : Bool) (t : ℕ) (y : Bool) (post : List Cell)
    (v : IsValid m (pre ++ (s, x) ∷ (t, y) ∷ post)) where
  abbrev b1 : ℕ
  b1 = address m pre

  abbrev stop1 : ℕ
  stop1 = m.first_block + m.memory_pool_size

  abbrev c1 : ℕ
  c1 = b1 + 24 + s

  joined_bound : b1 + 24 + s + 24 + t ≤ stop1
  joined_bound = omega (
    arith,
    Chain-total m.blocks 0 m.first_block m.first_block (pre ++ (s, x) ∷ (t, y) ∷ post) stop1
        v.chain,
    total-append pre ((s, x) ∷ (t, y) ∷ post),
  )

  -- The block behind `b1`.
  second :
      IsBlock (m.blocks c1) b1 (t, y)
      × Chain m.blocks c1 (m.blocks c1).next (c1 + 24 + t) post stop1
  second = let (last, here, rest) = header m pre s x ((t, y) ∷ post) v in (rest.1, rest.2)

  first_size : (m.blocks b1).size ≡ s
  first_size = let (last, here, rest) = header m pre s x ((t, y) ∷ post) v in here.size

  n1 : ℕ
  n1 = (m.blocks c1).next

  n1-pointer : n1 ≢ 0 → n1 ≡ c1 + 24 + t
  unfolding n1
  n1-pointer = Chain-pointer m.blocks c1 (m.blocks c1).next (c1 + 24 + t) post stop1 second.1

  j1 : Naive
  unfolding n1
  j1 =
      put_block b1
        (record (m.blocks b1) {
          size = ((m.blocks b1).size + 24 + (m.blocks c1).size) % 2 ^ 32;
          next = n1;
        })
        m

  j1-pointer : (j1.blocks c1).next ≡ n1
  unfolding j1
  j1-pointer = ap (λ z. z.next) (update_ne m.blocks _ {i = b1} {j = c1} (λ e. absurd (omega arith)))

  absorb-other : (j : ℕ) → j ≢ b1 → (n1 ≢ 0 → n1 ≢ j) → (absorb b1 c1 m).blocks j ≡ m.blocks j
  unfolding absorb j1
  absorb-other j h1 h2 =
      set_prev-other (j1.blocks c1).next b1 j j1
        (λ nz e. h2 (λ z. nz (j1-pointer ∙ z)) (sym j1-pointer ∙ e))
      ∙ update_ne m.blocks _ (λ z. h1 (sym z))

  absorb-at : (absorb b1 c1 m).blocks b1 ≡ record (m.blocks b1) { next = n1; size = s + 24 + t }
  unfolding absorb j1
  absorb-at =
      set_prev-other (j1.blocks c1).next b1 b1 j1
        (λ nz e. absurd (omega (arith, j1-pointer, n1-pointer (λ z. nz (j1-pointer ∙ z)))))
      ∙ update_self m.blocks _ b1
      ∙ ap (λ z. shortened n1 z (m.blocks b1))
          (omega (arith, v.small, joined_bound, first_size, second.0.size))

  absorb-behind : n1 ≢ 0 → (absorb b1 c1 m).blocks n1 ≡ record (m.blocks n1) { prev = b1 }
  unfolding absorb j1
  absorb-behind nz =
      subst (λ p. (set_prev p b1 j1).blocks n1 ≡ record (j1.blocks n1) { prev = b1 })
        (sym j1-pointer) (set_prev-at n1 b1 j1 nz)
      ∙ ap (linked_back b1)
          (update_ne m.blocks _ {i = b1} {j = n1} (λ z. absurd (omega (arith, n1-pointer nz))))

  pub absorb-IsValid : IsValid (absorb b1 c1 m) (pre ++ (s + 24 + t, x) ∷ post)
  unfolding absorb set_prev n1
  absorb-IsValid =
      let f' = (absorb b1 c1 m).blocks in
      rebuild m pre s x ((t, y) ∷ post) v f' ((s + 24 + t, x) ∷ post)
        (λ j lt.
          absorb-other j (λ e. absurd (omega arith))
            (λ nz e. absurd (omega (arith, n1-pointer nz))))
        λ last here rest. (
          refl,
          subst (λ z. IsBlock z last (s + 24 + t, x)) (sym absorb-at)
              (record { size = refl; free = here.free; prev = here.prev }),
          subst (λ z. Chain f' b1 z.next (b1 + 24 + (s + 24 + t)) post stop1) (sym absorb-at)
              (Chain-behind m.blocks f' c1 b1 n1 (b1 + 24 + (s + 24 + t)) post stop1
                (λ j lt.
                  absorb-other j (λ e. absurd (omega arith))
                    (λ nz e. absurd (omega (arith, n1-pointer nz))))
                (λ nz.
                  subst (λ a. f' a ≡ linked_back b1 (m.blocks a)) (omega (arith, n1-pointer nz))
                    (absorb-behind nz))
                (omega arith)
                (subst (λ a. Chain m.blocks c1 n1 a post stop1) (omega arith) second.1)),
        )
