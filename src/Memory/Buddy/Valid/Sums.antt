-- ===== src/Memory/Buddy/Valid/Sums.antt =====
-- Sums over lists of blocks, and facts of lists that are laid out one after the other.
use tp2_sistemas_operativos.Prelude.{
  ℕ, suc, ◌+◌, ◌*◌, ◌^◌, ◌≤◌, ◌≡◌, ◌≢◌, refl, List, [], ◌∷◌, ◌++◌, arith, All, length,
}
use tp2_sistemas_operativos.Memory.Powers.{two_pow_pos, two_pow_mono}
use tp2_sistemas_operativos.Memory.Buddy.Tree.{Block}
use tp2_sistemas_operativos.Memory.Buddy.Tree.Blocks.{Apart}

-- The bytes of the blocks, headers included.
abbrev pub total : List Block → ℕ
total [] = 0
total ((x, k) ∷ bs) = 2 ^ k + total bs

pub total-insert :
    (before after : List Block) (x k : ℕ)
    → total (before ++ ((x, k) ∷ after)) ≡ 2 ^ k + total (before ++ after)
total-insert [] after x k = refl
total-insert ((y, j) ∷ before) after x k = omega (arith, total-insert before after x k)

pub length-insert :
    (before after : List Block) (b : Block)
    → length (before ++ (b ∷ after)) ≡ suc (length (before ++ after))
length-insert [] after b = refl
length-insert (c ∷ before) after b = omega (arith, length-insert before after b)

-- Blocks that are laid out inside an area do not exceed it.
pub total-le : (lo hi : ℕ) (bs : List Block) → Apart lo hi bs → lo + total bs ≤ hi
total-le lo hi [] a = omega arith
total-le lo hi ((x, k) ∷ bs) a = omega (arith, total-le (x + 2 ^ k) hi bs a.1)

pub All-insert {ℓ} :
    (P : Block → Type ℓ) (before after : List Block) (b : Block)
    → All P (before ++ after)
    → P b
    → All P (before ++ (b ∷ after))
All-insert P [] after b h p = (p, h)
All-insert P (c ∷ before) after b h p = (h.0, All-insert P before after b h.1 p)

pub All-remove {ℓ} :
    (P : Block → Type ℓ) (before after : List Block) (b : Block)
    → All P (before ++ (b ∷ after))
    → All P (before ++ after) × P b
All-remove P [] after b h = (h.1, h.0)
All-remove P (c ∷ before) after b h =
    let rest = All-remove P before after b h.1 in ((h.0, rest.0), rest.1)

pub All-mono {ℓ κ} :
    {P : Block → Type ℓ} {Q : Block → Type κ} (f : (b : Block) → P b → Q b) (bs : List Block)
    → All P bs
    → All Q bs
All-mono f [] h = tt
All-mono f (b ∷ bs) h = (f b h.0, All-mono f bs h.1)

pub All-both {ℓ κ ι} :
    {P : Block → Type ℓ} {Q : Block → Type κ} {R : Block → Type ι}
    (f : (b : Block) → P b → Q b → R b) (bs : List Block)
    → All P bs
    → All Q bs
    → All R bs
All-both f [] h g = tt
All-both f (b ∷ bs) h g = (f b h.0 g.0, All-both f bs h.1 g.1)

-- Blocks that are laid out above `lo` start at `lo` or above.
pub starts-ge : (lo hi : ℕ) (bs : List Block) → Apart lo hi bs → All (λ b. lo ≤ b.0) bs
starts-ge lo hi [] a = tt
starts-ge lo hi ((x, k) ∷ bs) a =
    (a.0, All-mono (λ b h. omega arith) bs (starts-ge (x + 2 ^ k) hi bs a.1))

-- No other block starts where a given one does.
pub others_elsewhere :
    (lo hi x k : ℕ) (before after : List Block)
    → Apart lo hi (before ++ ((x, k) ∷ after))
    → All (λ b. x ≢ b.0) (before ++ after)
others_elsewhere lo hi x k [] after a =
    All-mono (λ b h. λ e. omega (arith, two_pow_pos k)) after (starts-ge (x + 2 ^ k) hi after a.1)
others_elsewhere lo hi x k ((y, j) ∷ before) after a =
    (λ e. omega (arith, two_pow_pos j, later), others_elsewhere (y + 2 ^ j) hi x k before after a.1)
  where
    later : y + 2 ^ j ≤ x
    later =
        (All-remove (λ b. y + 2 ^ j ≤ b.0) before after (x, k)
          (starts-ge (y + 2 ^ j) hi (before ++ ((x, k) ∷ after)) a.1)).1

-- Each block is longer than its header.
pub headers_fit : (bs : List Block) → All (λ b. 5 ≤ b.1) bs → 8 * length bs ≤ total bs
headers_fit [] h = omega arith
headers_fit ((x, k) ∷ bs) h = omega (arith, two_pow_mono 5 k h.0, headers_fit bs h.1)
